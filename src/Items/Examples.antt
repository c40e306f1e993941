-- ===== src/Items/Examples.antt =====
-- The theorems about the items of the stream, each at an input.
use nek.Common.{ℕ, ◌≡◌, refl, true, false, none, some, List, [], ◌∷◌, ◌++◌, if◌then◌else◌}
use nek.Common.Text.{lit}
use nek.Common.Table.{lookup}
use nek.Model.{
  World, FtTask, PendingFtList, TsFtEntry, TsError, SendResult, handle, failed, initial_world,
  ft_done, ft_listing, ft_kind_download, pos,
}
use nek.Items.Interruption.{on_disconnected_temporarily}
use nek.Items.Listing.{run_ft_list_finish}
use nek.Items.Transfer.{
  command_error, describe, find_task, ft_task_id_by_client_id, on_filetransfer_failed,
}
use nek.Items.Ledger.{owed, owed-on_disconnected_temporarily}
use nek.Items.Collect.{listings, add_frames, concat, listings-run_ft_list_finish}
use nek.Items.Done.{due_endings}
use nek.Items.Done.Steps.{
  TransferStep, canceled, status, answered, take_steps, due_endings-take_steps,
}
use nek.Items.Done.Status.{on_filetransfer_failed-download}

abbrev download : FtTask
download = record {
  kind = ft_kind_download;
  name = lit "a";
  local_path = lit "/tmp/a";
  total = 10;
  done = 4;
  cancel = false;
  client_ft_id = 0x4000;
  last_event = none;
}

abbrev listing : PendingFtList
listing = record {
  token = lit "l";
  entries = [];
  created = 0;
  cid = 1;
  path = lit "/";
  result_seen = false;
  result_ok = false;
  result_error = none;
  finished_seen = false;
  finalize_scheduled = false;
}

abbrev row : TsFtEntry
row = record { name = lit "a"; size = 3; datetime = pos 0; is_file = true }

-- One permission command, one listing and one download are under way.
abbrev busy : World
busy = record (initial_world []) {
  perm_ops = (9, lit "t") ∷ [];
  ft_lists = (3, listing) ∷ [];
  ft_tasks = (1, download) ∷ [];
  ft_task_seq = 2;
}

abbrev done_status : TsError
done_status = record { code = 0; debug = lit "Ok" }

abbrev steps : List TransferStep
steps = canceled 1 ∷ status 0x4000 (command_error done_status) ∷ answered 5 none ∷ []

abbrev rc_of : SendResult → ℕ
rc_of (handle rc) = rc
rc_of (failed e) = 0

owed-on_disconnected_temporarily_example :
    let v = on_disconnected_temporarily (lit "timeout") busy in
    (owed (lit "t") v ≡ owed (lit "t") busy) × (v.perm_ops ≡ [])
owed-on_disconnected_temporarily_example =
    owed-on_disconnected_temporarily (lit "t") (lit "timeout") busy

listings-run_ft_list_finish_example :
    let frames = (row ∷ row ∷ []) ∷ (row ∷ []) ∷ [] in
    let v = run_ft_list_finish 3 (add_frames 3 frames busy) in
    (listings v
      ≡ listings busy
        ++ ft_listing listing.token (listing.entries ++ concat frames) listing.result_error ∷ [])
    × (lookup 3 v.ft_lists ≡ none)
unfolding lookup
listings-run_ft_list_finish_example =
    listings-run_ft_list_finish 3 ((row ∷ row ∷ []) ∷ (row ∷ []) ∷ []) busy listing refl

due_endings-take_steps_example : due_endings 1 (take_steps steps busy) ≡ due_endings 1 busy
due_endings-take_steps_example = due_endings-take_steps 1 steps busy

on_filetransfer_failed-download_example :
    (on_filetransfer_failed 0x4000 (command_error done_status) busy).state.pending_events
    ≡ busy.state.pending_events
      ++ ft_done 1 false download.done
          (some (if download.cancel then lit "canceled" else describe (command_error done_status)))
        ∷ []
unfolding lookup ft_task_id_by_client_id find_task
on_filetransfer_failed-download_example =
    on_filetransfer_failed-download 0x4000 1 (command_error done_status) download busy refl refl
      refl
