-- ===== src/Workers/Examples.antt =====
-- The theorems about the transfer workers, each at an input.
use nek.Common.{
  ℕ, ◌≤◌, ◌≡◌, refl, arith, true, false, none, some, List, [], ◌∷◌, ◌++◌, any, replicate, Option,
  Bool,
}
use nek.Common.Text.{lit}
use nek.Common.Table.{lookup}
use nek.Model.{World, FtTask, TsEvent, ft_done, initial_world, ft_kind_download, TsError}
use nek.Items.Done.{due_endings, endings}
use nek.Items.Done.Steps.{TransferStep, status}
use nek.Items.Transfer.{command_error}
use nek.Workers.Download.{IoRound, bytes, read_error, run_download}
use nek.Workers.Upload.{StatusPoll, run_upload}
use nek.Workers.Endings.{run_download_settles, run_upload_settles}
use nek.Workers.Termination.{run_upload_ends}
use nek.Workers.Outcome.{told, chunks, sum, verdict, told-run_download}

abbrev download : FtTask
download = record {
  kind = ft_kind_download;
  name = lit "a";
  local_path = lit "/tmp/a";
  total = 10;
  done = 0;
  cancel = false;
  client_ft_id = 0x4000;
  last_event = none;
}

abbrev busy : World
busy = record (initial_world []) { ft_tasks = (1, download) ∷ [] }

abbrev done_status : TsError
done_status = record { code = 0; debug = lit "Ok" }

abbrev round : List TransferStep → ℕ → IoRound
round steps n = record {
  meanwhile = steps;
  cancel_flag = false;
  now = 100;
  read = bytes n;
  write_error = none;
}

-- The final status comes while the worker reads.
abbrev rounds : List IoRound
rounds = round [] 4 ∷ round (status 0x4000 (command_error done_status) ∷ []) 6 ∷ round [] 0 ∷ []

abbrev poll : StatusPoll
poll = record { meanwhile = []; cancel_flag = false }

abbrev polls : List StatusPoll
polls = replicate 32 poll

-- A download whose ten bytes come in two chunks.
whole_download :
    told 1 (run_download 1 10 none (chunks 100 (4 ∷ 6 ∷ [])) busy).0 ≡ ft_done 1 true 10 none ∷ []
unfolding run_download nek.Workers.Download.download_rounds nek.Workers.Download.io_round
    nek.Workers.Download.end_download nek.Model.finish_ft_task
    nek.Items.Transfer.maybe_publish_ft_progress lookup nek.Common.Table.update
    nek.Common.Table.remove initial_world
whole_download = refl

run_download_settles_example :
    (lookup 1 (run_download 1 10 none rounds busy).0.ft_tasks ≡ none)
    × (endings 1 (run_download 1 10 none rounds busy).0.state.pending_events ≡ due_endings 1 busy)
unfolding run_download nek.Workers.Download.download_rounds nek.Workers.Download.io_round lookup
    nek.Common.Table.update initial_world
run_download_settles_example = run_download_settles 1 10 none rounds busy refl

run_upload_settles_example :
    (lookup 1 (run_upload 1 none none rounds polls busy).0.ft_tasks ≡ none)
    × (endings 1 (run_upload 1 none none rounds polls busy).0.state.pending_events
        ≡ due_endings 1 busy)
unfolding initial_world
run_upload_settles_example =
    run_upload_settles 1 none none rounds polls busy
      (run_upload_ends 1 none none rounds polls busy refl (omega arith))

run_upload_ends_example : (run_upload 1 none none rounds polls busy).1 ≡ true
run_upload_ends_example = run_upload_ends 1 none none rounds polls busy refl (omega arith)

told-run_download_example :
    told 1 (run_download 1 10 none (chunks 100 (4 ∷ 6 ∷ [])) busy).0
    ≡ told 1 busy ++ verdict 1 10 (sum (4 ∷ 6 ∷ [])) ∷ []
unfolding lookup initial_world
told-run_download_example =
    told-run_download 1 10 100 (4 ∷ 6 ∷ []) busy refl (refl, (refl, tt)) (omega arith)
