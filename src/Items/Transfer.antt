-- ===== src/Items/Transfer.antt =====
-- Transfers: progress events, the streams that the server hands over, and its final status.
use nek.Common.{
  ℕ, ◌-◌, Bool, true, false, not, ◌&&◌, Option, none, some, [], ◌∷◌, ◌++◌, if◌then◌else◌, ltb, ◌==◌,
}
use nek.Common.Text.{Text, lit, hex06}
use nek.Common.Table.{Table, lookup, update}
use nek.Model.{
  World, FtTask, TsError, error_ok, ft_kind_upload, ft_progress, download_worker, upload_worker,
  push_event, spawn, finish_ft_task,
}

-- The first task that has a transfer id.
unfoldable pub find_task : ℕ → Table FtTask → Option ℕ
find_task client_ft_id [] = none
find_task client_ft_id ((id, t) ∷ m) =
    let rest = find_task client_ft_id m in if t.client_ft_id == client_ft_id then some id else rest

unfoldable pub ft_task_id_by_client_id : ℕ → World → Option ℕ
unfolding find_task
ft_task_id_by_client_id client_ft_id w = find_task client_ft_id w.ft_tasks

-- Whether half a second has passed since the last progress event.
abbrev pub is_due : ℕ → Bool → Option ℕ → Bool
is_due now force none = true
is_due now force (some t) = if not force && ltb (now - t) 500 then false else true

unfoldable pub maybe_publish_ft_progress : ℕ → ℕ → Bool → World → World
maybe_publish_ft_progress now task_id force w = elim (lookup task_id w.ft_tasks) [
  | none ↦ w
  | some t ↦
      if is_due now force t.last_event
      then push_event (ft_progress task_id t.done) (record w {
        ft_tasks = update task_id (λ u. record u { last_event = some now }) w.ft_tasks;
      })
      else w
]

unfoldable pub with_task : ℕ → (ℕ → World → World) → World → World
with_task client_ft_id f w = elim (ft_task_id_by_client_id client_ft_id w) [
  | none ↦ w
  | some task_id ↦ f task_id w
]

abbrev pub stream_failed : Text → ℕ → World → World
stream_failed e task_id w =
    finish_ft_task task_id false (some (lit "transfer stream failed: " ++ e)) w

-- The total is stored, told, and the worker is started.
unfoldable pub start_download : ℕ → ℕ → ℕ → World → World
unfolding maybe_publish_ft_progress
start_download now total task_id w = spawn 0 (download_worker task_id total) (
    maybe_publish_ft_progress now task_id true
      (record w { ft_tasks = update task_id (λ t. record t { total = total }) w.ft_tasks }))

-- `stream` is the error that makes of the socket no blocking stream, if there is one.
unfoldable pub handle_file_download : ℕ → ℕ → ℕ → Option Text → World → World
unfolding start_download finish_ft_task with_task
handle_file_download now client_ft_id total none w =
    with_task client_ft_id (start_download now total) w
handle_file_download now client_ft_id total (some e) w = with_task client_ft_id (stream_failed e) w

unfoldable pub start_upload : ℕ → World → World
start_upload task_id w = elim (lookup task_id w.ft_tasks) [
  | none ↦ w
  | some t ↦ spawn 0 (upload_worker task_id t.local_path) w
]

unfoldable pub handle_file_upload : ℕ → Option Text → World → World
unfolding start_upload finish_ft_task with_task
handle_file_upload client_ft_id none w = with_task client_ft_id start_upload w
handle_file_upload client_ft_id (some e) w = with_task client_ft_id (stream_failed e) w

-- The status of a transfer, as the library hands it over: a `TsError`, or another failure.
pub data TransferStatus : Type 0 where
  command_error : TsError → TransferStatus
  other_failure : Text → TransferStatus

-- `{:?} ({:#06x})` of an error.
unfoldable pub error_text : TsError → Text
error_text e = e.debug ++ lit " (" ++ hex06 e.code ++ lit ")"

abbrev pub is_ok_status : TransferStatus → Bool
is_ok_status (command_error e) = e.code == error_ok
is_ok_status (other_failure t) = false

abbrev pub describe : TransferStatus → Text
describe (command_error e) = error_text e
describe (other_failure t) = t

-- An upload is done by an Ok status; every other status, and any status of a download, fails
-- the task, as canceled if it was.
abbrev pub status_outcome : TransferStatus → FtTask → Bool × Option Text
status_outcome s t =
    if t.kind == ft_kind_upload && is_ok_status s
    then (true, none)
    else (false, some (if t.cancel then lit "canceled" else describe s))

unfoldable pub end_by_status : TransferStatus → ℕ → World → World
unfolding finish_ft_task
end_by_status s task_id w = elim (lookup task_id w.ft_tasks) [
  | none ↦ w
  | some t ↦ finish_ft_task task_id (status_outcome s t).0 (status_outcome s t).1 w
]

unfoldable pub on_filetransfer_failed : ℕ → TransferStatus → World → World
unfolding end_by_status with_task
on_filetransfer_failed client_ft_id s w = with_task client_ft_id (end_by_status s) w
