-- ===== src/Items/Done/Status.antt =====
-- What the final status of a transfer makes of its task.
use nek.Common.{ℕ, ◌≡◌, false, some, [], ◌∷◌, ◌++◌, if◌then◌else◌}
use nek.Common.Text.{lit}
use nek.Common.Table.{lookup}
use nek.Model.{World, FtTask, ft_done, ft_kind_download, finish_ft_task}
use nek.Items.Transfer.{
  TransferStatus, describe, ft_task_id_by_client_id, end_by_status, on_filetransfer_failed,
  with_task,
}

-- Every status of a download that is known by its transfer id, Ok included, tells Dart that the
-- task has failed, as canceled if it was, and else in the words of the status.
pub on_filetransfer_failed-download :
    (ftid k : ℕ) (s : TransferStatus) (t : FtTask) (w : World)
    → ft_task_id_by_client_id ftid w ≡ some k
    → lookup k w.ft_tasks ≡ some t
    → t.kind ≡ ft_kind_download
    → (on_filetransfer_failed ftid s w).state.pending_events
      ≡ w.state.pending_events
        ++ ft_done k false t.done (some (if t.cancel then lit "canceled" else describe s)) ∷ []
unfolding on_filetransfer_failed end_by_status finish_ft_task with_task
on_filetransfer_failed-download ftid k s t w hf hk hd =
    rw (hf, with_task, hk, end_by_status, hk, finish_ft_task, hd)
