-- ===== src/Items/Done/Steps.antt =====
-- Every step that a transfer takes, from the request to the last status, in any order.
use nek.Common.{
  ℕ, ◌+◌, ◌≡◌, refl, ◌∙◌, Bool, false, Option, none, some, List, [], ◌∷◌, inl, inr, arith,
  if◌then◌else◌, ◌==◌, Bool-cases, Option-cases,
}
use nek.Common.Text.{Text, lit}
use nek.Common.Table.{lookup, lookup-insert}
use nek.Model.{World, Command, finish_ft_task}
use nek.Calls.Queue.{send_cmd}
use nek.Calls.Transfers.{start_task, ts_ft_cancel, queue_task, ft_new_task, ft_push_started}
use nek.EventLoop.Env.{Env}
use nek.EventLoop.Files.{on_ft_download, on_ft_upload}
use nek.Items.Answer.{Answer, resolve_transfer}
use nek.Items.Transfer.{
  TransferStatus, maybe_publish_ft_progress, handle_file_download, handle_file_upload,
  on_filetransfer_failed,
}
use nek.Items.Done.{due_endings, endings-append, due_endings-finish_ft_task, due-progress}
use nek.Items.Done.Handlers.{
  due-on_ft_download, due-on_ft_upload, due-handle_file_download, due-handle_file_upload,
  due-on_filetransfer_failed, due-resolve_transfer, due-ts_ft_cancel,
}

pub data TransferStep : Type 0 where
  -- the event loop sends the request: cid, path, password, task
  download_request upload_request : Env → ℕ → Text → Option Text → ℕ → TransferStep
  -- the server answers the request with a return code
  answered : ℕ → Answer → TransferStep
  -- the server hands a stream over: the transfer id, and what `handle_file_*` take
  download_stream : ℕ → ℕ → ℕ → Option Text → TransferStep
  upload_stream : ℕ → Option Text → TransferStep
  -- the worker reports progress: now, task, force
  progressed : ℕ → ℕ → Bool → TransferStep
  -- the worker or the loop ends the task
  finished : ℕ → Bool → Option Text → TransferStep
  status : ℕ → TransferStatus → TransferStep
  canceled : ℕ → TransferStep

unfoldable pub take_step : TransferStep → World → World
unfolding on_ft_download on_ft_upload resolve_transfer handle_file_download handle_file_upload
    maybe_publish_ft_progress finish_ft_task on_filetransfer_failed ts_ft_cancel
take_step (download_request env cid path pw k) w = on_ft_download env cid path pw k w
take_step (upload_request env cid path pw k) w = on_ft_upload env cid path pw k w
take_step (answered rc res) w = resolve_transfer rc res w
take_step (download_stream now ftid total stream) w = handle_file_download now ftid total stream w
take_step (upload_stream ftid stream) w = handle_file_upload ftid stream w
take_step (progressed now k force) w = maybe_publish_ft_progress now k force w
take_step (finished k ok err) w = finish_ft_task k ok err w
take_step (status ftid s) w = on_filetransfer_failed ftid s w
take_step (canceled k) w = (ts_ft_cancel k w).0

abbrev pub take_steps : List TransferStep → World → World
take_steps [] w = w
take_steps (s ∷ steps) w = take_steps steps (take_step s w)

due-take_step :
    (id : ℕ) (s : TransferStep) (w : World) → due_endings id (take_step s w) ≡ due_endings id w
unfolding take_step
due-take_step id (download_request env cid path pw k) w = due-on_ft_download id env cid path pw k w
due-take_step id (upload_request env cid path pw k) w = due-on_ft_upload id env cid path pw k w
due-take_step id (answered rc res) w = due-resolve_transfer id rc res w
due-take_step id (download_stream now ftid total stream) w =
    due-handle_file_download id now ftid total stream w
due-take_step id (upload_stream ftid stream) w = due-handle_file_upload id ftid stream w
due-take_step id (progressed now k force) w = due-progress id now k force w
due-take_step id (finished k ok err) w = due_endings-finish_ft_task id k ok err w
due-take_step id (status ftid s) w = due-on_filetransfer_failed id ftid s w
due-take_step id (canceled k) w = due-ts_ft_cancel id k w

-- Whatever steps the transfers take, and in whatever order, the endings of a task that were told
-- and those to come stay the same in number: a task that was there is told to have ended exactly
-- when it goes, and never again.
pub due_endings-take_steps :
    (id : ℕ) (steps : List TransferStep) (w : World)
    → due_endings id (take_steps steps w) ≡ due_endings id w
due_endings-take_steps id [] w = refl
due_endings-take_steps id (s ∷ steps) w =
    due_endings-take_steps id steps (take_step s w) ∙ due-take_step id s w

due-send_cmd :
    (id : ℕ) (cmd : Command) (w : World) → due_endings id (send_cmd cmd w).0 ≡ due_endings id w
unfolding send_cmd due_endings
due-send_cmd id cmd w = elim (Option-cases w.command_tx) [
  | inl e ↦ rw (e, send_cmd)
  | inr (tx, e) ↦ elim (Bool-cases tx.receiver_alive) [
    | inl a ↦ rw (e, send_cmd, a)
    | inr a ↦ rw (e, send_cmd, a)
  ]
]

due-queue_task :
    (id k : ℕ) (cmd : Command) (w : World)
    → due_endings id (queue_task k cmd w).0 ≡ due_endings id w
unfolding queue_task
due-queue_task id k cmd w = elim (Bool-cases (send_cmd cmd w).1) [
  | inl q ↦ rw q (due-send_cmd id cmd w)
  | inr q ↦ rw q (
      due_endings-finish_ft_task id k false (some (lit "event loop unavailable")) (send_cmd cmd w).0
      ∙ due-send_cmd id cmd w)
]

due-ft_push_started :
    (id k : ℕ) (w : World) → due_endings id (ft_push_started k w) ≡ due_endings id w
unfolding ft_push_started due_endings
due-ft_push_started id k w = elim (Option-cases (lookup k w.ft_tasks)) [
  | inl e ↦ rw (e, ft_push_started)
  | inr (t, e) ↦ rw (e, ft_push_started) (omega (arith, endings-append))
]

due-ft_new_task :
    (id kind : ℕ) (name local_path : Text) (total : ℕ) (w : World)
    → lookup w.ft_task_seq w.ft_tasks ≡ none
    → due_endings id (ft_new_task kind name local_path total w).0
      ≡ due_endings id w + (if w.ft_task_seq == id then 1 else 0)
unfolding ft_new_task due_endings
due-ft_new_task id kind name local_path total w h = elim (Bool-cases (w.ft_task_seq == id)) [
  | inl e ↦ rw (lookup-insert, e) (ground (arith, h, e))
  | inr e ↦ rw (lookup-insert, e) (omega arith)
]

-- A transfer that is started owes one ending, to its own task and no other, if no task has its
-- number yet, also where the event loop does not take the request any more.
pub due_endings-start_task :
    (id kind : ℕ) (name local_path : Text) (total : ℕ) (cmd : ℕ → Command) (w : World)
    → lookup w.ft_task_seq w.ft_tasks ≡ none
    → due_endings id (start_task kind name local_path total cmd w).0
      ≡ due_endings id w + (if w.ft_task_seq == id then 1 else 0)
unfolding start_task
due_endings-start_task id kind name local_path total cmd w h =
    due-queue_task id _ _ _
    ∙ due-ft_push_started id _ _
    ∙ due-ft_new_task id kind name local_path total w h
