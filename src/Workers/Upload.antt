-- ===== src/Workers/Upload.antt =====
-- `spawn_upload_worker`.
use nek.Common.{
  ℕ, zero, suc, ◌+◌, ◌%◌, ◌^◌, Bool, true, false, not, Option, none, some, List, [], ◌∷◌,
  if◌then◌else◌,
}
use nek.Common.Text.{Text}
use nek.Common.Table.{lookup, update, contains_key}
use nek.Model.{World, finish_ft_task}
use nek.Items.Transfer.{maybe_publish_ft_progress}
use nek.Items.Done.Steps.{TransferStep, take_steps}
use nek.Workers.Download.{IoRound, count, io_round, cancel_task, fail_task}

-- How often the worker looks for the final status, every quarter of a second.
abbrev pub status_polls : ℕ
status_polls = 32

pub record StatusPoll : Type 0 where
  pub meanwhile : List TransferStep
  pub cancel_flag : Bool

-- Waits for the status; without one the upload is taken for done.
unfoldable pub await_status : ℕ → ℕ → List StatusPoll → World → World × Bool
unfolding finish_ft_task
await_status task_id zero polls w = (finish_ft_task task_id true none w, true)
await_status task_id (suc left) [] w = (w, false)
await_status task_id (suc left) (p ∷ polls) w =
    let v = take_steps p.meanwhile w in
    let rest = await_status task_id left polls v in
    if not (contains_key task_id v.ft_tasks)
    then (v, true)
    else if p.cancel_flag
    then (cancel_task task_id v, true)
    else rest

abbrev pub add_done : ℕ → ℕ → World → World
add_done task_id n w = record w {
  ft_tasks = update task_id (λ t. record t { done = (t.done + n) % 2 ^ 64 }) w.ft_tasks;
}

abbrev pub note_sent : ℕ → ℕ → ℕ → World → World
unfolding maybe_publish_ft_progress
note_sent now task_id n w = maybe_publish_ft_progress now task_id false (add_done task_id n w)

-- All bytes were handed over: the stream is flushed.
abbrev pub end_upload : ℕ → Option Text → List StatusPoll → World → World × Bool
unfolding await_status finish_ft_task
end_upload task_id (some e) polls w = (fail_task task_id e w, true)
end_upload task_id none polls w = await_status task_id status_polls polls w

-- The loop over the file.
unfoldable pub upload_rounds :
    ℕ → Option Text → List StatusPoll → List IoRound → World → World × Bool
unfolding io_round await_status finish_ft_task maybe_publish_ft_progress
upload_rounds task_id flush_error polls [] w = (w, false)
upload_rounds task_id flush_error polls (r ∷ rounds) w =
    let v = take_steps r.meanwhile w in
    io_round task_id r.cancel_flag r.read r.write_error v (end_upload task_id flush_error polls v)
      (upload_rounds task_id flush_error polls rounds (note_sent r.now task_id (count r.read) v))

-- The thread: `open_error` is the error that opening the file gives.
unfoldable pub run_upload :
    ℕ → Option Text → Option Text → List IoRound → List StatusPoll → World → World × Bool
unfolding upload_rounds finish_ft_task
run_upload task_id open_error flush_error rounds polls w = elim (lookup task_id w.ft_tasks) [
  | none ↦ (w, true)
  | some t ↦ elim open_error [
    | some e ↦ (fail_task task_id e w, true)
    | none ↦ upload_rounds task_id flush_error polls rounds w
  ]
]
