-- ===== src/Workers/Download.antt =====
-- `spawn_download_worker`. The socket and the file system are outside: what they give is an
-- argument of each round.
use nek.Common.{
  ℕ, ◌+◌, ◌%◌, ◌^◌, Bool, true, false, ◌&&◌, Option, none, some, List, [], ◌∷◌, ◌++◌, if◌then◌else◌,
  ltb, ◌==◌,
}
use nek.Common.Text.{Text, lit, decimal}
use nek.Common.Table.{lookup, update}
use nek.Model.{World, finish_ft_task}
use nek.Items.Transfer.{maybe_publish_ft_progress}
use nek.Items.Done.Steps.{TransferStep, take_steps}

-- The result of a read: the number of the bytes, or the text of the error.
pub data IoRead : Type 0 where
  bytes : ℕ → IoRead
  read_error : Text → IoRead

-- One round of a worker: what the other threads do to the transfers before it, what the shared
-- flag holds, what the source gives, and the error of the write, if there is one. The flag is
-- held by the worker too, so that it outlives the entry of the task.
pub record IoRound : Type 0 where
  pub meanwhile : List TransferStep
  pub cancel_flag : Bool
  pub now : ℕ
  pub read : IoRead
  pub write_error : Option Text

abbrev pub cancel_task : ℕ → World → World
unfolding finish_ft_task
cancel_task task_id w = finish_ft_task task_id false (some (lit "canceled")) w

abbrev pub fail_task : ℕ → Text → World → World
unfolding finish_ft_task
fail_task task_id e w = finish_ft_task task_id false (some e) w

-- The number of the bytes so far is stored with the task, if it is still there.
abbrev pub store_done : ℕ → ℕ → World → World
store_done task_id received w = record w {
  ft_tasks = update task_id (λ t. record t { done = received }) w.ft_tasks;
}

abbrev pub incomplete : ℕ → ℕ → Text
incomplete received total =
    lit "incomplete transfer (" ++ decimal received ++ lit "/" ++ decimal total ++ lit " bytes)"

-- The server finished sending.
unfoldable pub end_download : ℕ → ℕ → ℕ → World → World
unfolding finish_ft_task
end_download task_id total received w =
    if ltb 0 total && ltb received total
    then fail_task task_id (incomplete received total) w
    else finish_ft_task task_id true none (store_done task_id received w)

abbrev pub note_received : ℕ → ℕ → ℕ → World → World
unfolding maybe_publish_ft_progress
note_received now task_id received w =
    maybe_publish_ft_progress now task_id false (store_done task_id received w)

-- The number of the bytes that a read gave.
abbrev pub count : IoRead → ℕ
count (bytes n) = n
count (read_error e) = 0

abbrev after_write : ℕ → Option Text → World → World × Bool → World × Bool
unfolding finish_ft_task
after_write task_id none w rest = rest
after_write task_id (some e) w rest = (fail_task task_id e w, true)

-- One round: the flag, the read, and the write. `at_end` is what follows on the end of the
-- source, `rest` on a chunk that was written.
unfoldable pub io_round :
    ℕ → Bool → IoRead → Option Text → World → World × Bool → World × Bool → World × Bool
unfolding finish_ft_task
io_round task_id true read write_error w at_end rest = (cancel_task task_id w, true)
io_round task_id false (read_error e) write_error w at_end rest = (fail_task task_id e w, true)
io_round task_id false (bytes n) write_error w at_end rest =
    if n == 0 then at_end else after_write task_id write_error w rest

-- The loop, with the bytes received so far. It also says whether the worker is done; it still
-- runs where the rounds are at their end.
unfoldable pub download_rounds : ℕ → ℕ → ℕ → List IoRound → World → World × Bool
unfolding io_round end_download maybe_publish_ft_progress
download_rounds task_id total received [] w = (w, false)
download_rounds task_id total received (r ∷ rounds) w =
    let v = take_steps r.meanwhile w in
    let sum = (received + count r.read) % 2 ^ 64 in
    io_round task_id r.cancel_flag r.read r.write_error v
      (end_download task_id total received v, true)
      (download_rounds task_id total sum rounds (note_received r.now task_id sum v))

-- The thread: `create_error` is the error that creating the file gives.
unfoldable pub run_download : ℕ → ℕ → Option Text → List IoRound → World → World × Bool
unfolding download_rounds finish_ft_task
run_download task_id total create_error rounds w = elim (lookup task_id w.ft_tasks) [
  | none ↦ (w, true)
  | some t ↦ elim create_error [
    | some e ↦ (fail_task task_id e w, true)
    | none ↦ download_rounds task_id total 0 rounds w
  ]
]
