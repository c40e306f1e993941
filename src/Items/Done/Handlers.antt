-- ===== src/Items/Done/Handlers.antt =====
-- What each handler leaves of the endings that are told or to come.
use nek.Common.{ℕ, ◌≡◌, true, false, Option, none, some, ◌++◌, inl, inr, arith, Option-cases}
use nek.Common.Text.{Text, lit}
use nek.Common.Table.{lookup, update}
use nek.Model.{World}
use nek.Calls.Transfers.{ts_ft_cancel}
use nek.EventLoop.Env.{Env}
use nek.EventLoop.Files.{on_ft_download, on_ft_upload}
use nek.Items.Answer.{Answer, resolve_transfer}
use nek.Items.Transfer.{
  TransferStatus, with_task, stream_failed, start_download, start_upload, end_by_status,
  status_outcome, ft_task_id_by_client_id, handle_file_download, handle_file_upload,
  on_filetransfer_failed,
}
use nek.Items.Done.{
  due_endings, alive-update, due_endings-finish_ft_task, due-push_diag, due-push_wire_diag,
  due-progress, due-bind_ft_id, due-file_transfer,
}

pub due-on_ft_download :
    (id : ℕ) (env : Env) (cid : ℕ) (path : Text) (pw : Option Text) (task_id : ℕ) (w : World)
    → due_endings id (on_ft_download env cid path pw task_id w) ≡ due_endings id w
unfolding on_ft_download
due-on_ft_download id env cid path pw task_id w =
    rw (due-file_transfer, due-push_wire_diag, due-bind_ft_id, due-push_diag)

pub due-on_ft_upload :
    (id : ℕ) (env : Env) (cid : ℕ) (path : Text) (pw : Option Text) (task_id : ℕ) (w : World)
    → due_endings id (on_ft_upload env cid path pw task_id w) ≡ due_endings id w
unfolding on_ft_upload
due-on_ft_upload id env cid path pw task_id w =
    rw (due-file_transfer, due-push_wire_diag, due-bind_ft_id, due-push_diag)

pub due-with_task :
    (id ftid : ℕ) (f : ℕ → World → World) (w : World)
    → ((k : ℕ) → due_endings id (f k w) ≡ due_endings id w)
    → due_endings id (with_task ftid f w) ≡ due_endings id w
unfolding with_task
due-with_task id ftid f w h = elim (Option-cases (ft_task_id_by_client_id ftid w)) [
  | inl e ↦ rw (e, with_task)
  | inr (k, e) ↦ rw (e, with_task) (h k)
]

pub due-start_download :
    (id now total k : ℕ) (w : World)
    → due_endings id (start_download now total k w) ≡ due_endings id w
unfolding start_download due_endings
due-start_download id now total k w = omega (
  arith,
  due-progress id now k true
      (record w { ft_tasks = update k (λ t. record t { total = total }) w.ft_tasks }),
  alive-update id k (λ t. record t { total = total }) w.ft_tasks,
)

pub due-handle_file_download :
    (id now ftid total : ℕ) (stream : Option Text) (w : World)
    → due_endings id (handle_file_download now ftid total stream w) ≡ due_endings id w
unfolding handle_file_download
due-handle_file_download id now ftid total none w =
    due-with_task id ftid (start_download now total) w (λ k. due-start_download id now total k w)
due-handle_file_download id now ftid total (some err) w =
    due-with_task id ftid (stream_failed err) w
      (λ k. due_endings-finish_ft_task id k false (some (lit "transfer stream failed: " ++ err)) w)

pub due-start_upload : (id k : ℕ) (w : World) → due_endings id (start_upload k w) ≡ due_endings id w
unfolding start_upload due_endings
due-start_upload id k w = elim (Option-cases (lookup k w.ft_tasks)) [
  | inl l ↦ rw (l, start_upload)
  | inr (t, l) ↦ rw (l, start_upload)
]

pub due-handle_file_upload :
    (id ftid : ℕ) (stream : Option Text) (w : World)
    → due_endings id (handle_file_upload ftid stream w) ≡ due_endings id w
unfolding handle_file_upload
due-handle_file_upload id ftid none w =
    due-with_task id ftid start_upload w (λ k. due-start_upload id k w)
due-handle_file_upload id ftid (some err) w =
    due-with_task id ftid (stream_failed err) w
      (λ k. due_endings-finish_ft_task id k false (some (lit "transfer stream failed: " ++ err)) w)

pub due-end_by_status :
    (id k : ℕ) (s : TransferStatus) (w : World)
    → due_endings id (end_by_status s k w) ≡ due_endings id w
unfolding end_by_status
due-end_by_status id k s w = elim (Option-cases (lookup k w.ft_tasks)) [
  | inl l ↦ rw (l, end_by_status)
  | inr (t, l) ↦
      rw (l, end_by_status)
        (due_endings-finish_ft_task id k (status_outcome s t).0 (status_outcome s t).1 w)
]

pub due-on_filetransfer_failed :
    (id ftid : ℕ) (s : TransferStatus) (w : World)
    → due_endings id (on_filetransfer_failed ftid s w) ≡ due_endings id w
unfolding on_filetransfer_failed
due-on_filetransfer_failed id ftid s w =
    due-with_task id ftid (end_by_status s) w (λ k. due-end_by_status id k s w)

pub due-resolve_transfer :
    (id rc : ℕ) (res : Answer) (w : World)
    → due_endings id (resolve_transfer rc res w) ≡ due_endings id w
unfolding resolve_transfer due_endings
due-resolve_transfer id rc none w = elim (Option-cases (lookup rc w.ft_task_by_rc)) [
  | inl e ↦ rw (e, resolve_transfer)
  | inr (k, e) ↦ rw (e, resolve_transfer)
]
due-resolve_transfer id rc (some err) w = elim (Option-cases (lookup rc w.ft_task_by_rc)) [
  | inl e ↦ rw (e, resolve_transfer)
  | inr (k, e) ↦ rw (e, resolve_transfer, due_endings-finish_ft_task, due-push_diag, due_endings)
]

pub due-ts_ft_cancel :
    (id task_id : ℕ) (w : World) → due_endings id (ts_ft_cancel task_id w).0 ≡ due_endings id w
unfolding ts_ft_cancel due_endings
due-ts_ft_cancel id task_id w = elim (Option-cases (lookup task_id w.ft_tasks)) [
  | inl e ↦ rw (e, ts_ft_cancel)
  | inr (t, e) ↦
      rw (e, ts_ft_cancel)
        (omega (arith, alive-update id task_id (λ u. record u { cancel = true }) w.ft_tasks))
]
