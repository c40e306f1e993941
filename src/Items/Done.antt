-- ===== src/Items/Done.antt =====
-- A transfer ends once: the endings of a task that Dart is told of, or will be.
pub mod Handlers
pub mod Steps
pub mod Status
use nek.Common.{
  ℕ, ◌+◌, ◌≡◌, refl, ◌∙◌, Bool, true, false, Option, none, some, List, [], ◌∷◌, ◌++◌, inl, inr,
  arith, is_some, if◌then◌else◌, ◌==◌, Bool-cases, Option-cases,
}
use nek.Common.Text.{Text, lit}
use nek.Common.Table.{
  Table, lookup, insert, remove, update, mapped, lookup-remove, lookup-update, lookup-insert,
}
use nek.Model.{
  World, Command, TsEvent, ft_done, FtTask, SendResult, handle, failed, finish_ft_task,
  ft_kind_download, push_event, push_diag, transmit, spawn, download_worker, upload_worker,
  OutMessage,
}
use nek.Calls.Transfers.{start_task, ts_ft_cancel, queue_task, ft_new_task, ft_push_started}
use nek.EventLoop.Env.{Env}
use nek.EventLoop.Files.{on_ft_download, on_ft_upload, file_transfer, bind_ft_id, push_wire_diag}
use nek.Items.Answer.{Answer, resolve_transfer}
use nek.Items.Transfer.{
  with_task, stream_failed, start_download, start_upload, end_by_status, status_outcome,
  ft_task_id_by_client_id, maybe_publish_ft_progress, is_due, handle_file_download,
  handle_file_upload, on_filetransfer_failed, TransferStatus, describe,
}

-- Whether an event says that a task has ended, as a number.
abbrev ends : ℕ → TsEvent → ℕ
ends id (ft_done i ok done err) = if i == id then 1 else 0
ends id _ = 0

abbrev pub endings : ℕ → List TsEvent → ℕ
endings id [] = 0
endings id (e ∷ es) = ends id e + endings id es

abbrev one_if : Option FtTask → ℕ
one_if none = 0
one_if (some t) = 1

-- 1 as long as the task is there.
abbrev pub alive : ℕ → Table FtTask → ℕ
alive id m = one_if (lookup id m)

-- The endings that Dart is told of or will be.
unfoldable pub due_endings : ℕ → World → ℕ
due_endings id w = alive id w.ft_tasks + endings id w.state.pending_events

pub endings-append :
    (id : ℕ) (es fs : List TsEvent) → endings id (es ++ fs) ≡ endings id es + endings id fs
endings-append id [] fs = omega arith
endings-append id (e ∷ es) fs = omega (arith, endings-append id es fs)

alive-remove :
    (id k : ℕ) (t : FtTask) (m : Table FtTask)
    → lookup k m ≡ some t
    → alive id (remove k m) + (if k == id then 1 else 0) ≡ alive id m
alive-remove id k t m h = elim (Bool-cases (k == id)) [
  | inl e ↦ rw (lookup-remove k id m, e) (ground (arith, same h e))
  | inr e ↦ rw (lookup-remove k id m, e) (omega arith)
]
  where
    same : lookup k m ≡ some t → (k == id) ≡ true → lookup id m ≡ some t
    same h e = ground arith

-- The end of any task, in whatever way, keeps for each task the number of the endings told and
-- of those to come: a task that is there is told to have ended and is gone, and nothing is told
-- of a task that is gone.
pub due_endings-finish_ft_task :
    (id task_id : ℕ) (ok : Bool) (err : Option Text) (w : World)
    → due_endings id (finish_ft_task task_id ok err w) ≡ due_endings id w
unfolding finish_ft_task due_endings
due_endings-finish_ft_task id task_id ok err w = elim (Option-cases (lookup task_id w.ft_tasks)) [
  | inl e ↦ rw (e, finish_ft_task)
  | inr (t, e) ↦
      rw (e, finish_ft_task) (omega (arith, endings-append, alive-remove id task_id t w.ft_tasks e))
]

pub alive-update :
    (id k : ℕ) (f : FtTask → FtTask) (m : Table FtTask) → alive id (update k f m) ≡ alive id m
alive-update id k f m =
    rw (lookup-update k id f m)
      (elim (Bool-cases (k == id)) [ inl e ↦ rw e (mapped_alive (lookup id m)) | inr e ↦ rw e ])
  where
    mapped_alive : (o : Option FtTask) → one_if (mapped f o) ≡ one_if o
    mapped_alive none = refl
    mapped_alive (some t) = refl

pub due-push_diag :
    (id : ℕ) (t : Text) (w : World) → due_endings id (push_diag t w) ≡ due_endings id w
unfolding push_diag due_endings
due-push_diag id t w = omega (arith, endings-append)

pub due-push_wire_diag :
    (id : ℕ) (env : Env) (tag : Text) (m : OutMessage) (w : World)
    → due_endings id (transmit m (push_wire_diag env tag m w)) ≡ due_endings id w
unfolding push_wire_diag push_diag due_endings
due-push_wire_diag id env tag m w = omega (arith, endings-append)

pub due-progress :
    (id now task_id : ℕ) (force : Bool) (w : World)
    → due_endings id (maybe_publish_ft_progress now task_id force w) ≡ due_endings id w
unfolding maybe_publish_ft_progress due_endings
due-progress id now task_id force w = elim (Option-cases (lookup task_id w.ft_tasks)) [
  | inl e ↦ rw (e, maybe_publish_ft_progress)
  | inr (t, e) ↦ elim (Bool-cases (is_due now force t.last_event)) [
    | inl d ↦
        rw (e, maybe_publish_ft_progress, d)
          (omega (
            arith,
            endings-append,
            alive-update id task_id (λ u. record u { last_event = some now }) w.ft_tasks,
          ))
    | inr d ↦ rw (e, maybe_publish_ft_progress, d)
  ]
]

pub due-bind_ft_id :
    (id task_id : ℕ) (w : World) → due_endings id (bind_ft_id task_id w).0 ≡ due_endings id w
unfolding bind_ft_id due_endings
due-bind_ft_id id task_id w =
    omega
      (arith, alive-update id task_id (λ t. record t { client_ft_id = w.ft_client_ft }) w.ft_tasks)

pub due-file_transfer :
    (id task_id : ℕ) (r : SendResult) (w : World)
    → due_endings id (file_transfer task_id r w) ≡ due_endings id w
unfolding file_transfer due_endings
due-file_transfer id task_id (handle rc) w = refl
due-file_transfer id task_id (failed e) w = due_endings-finish_ft_task id task_id false (some e) w
