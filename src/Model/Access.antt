-- ===== src/Model/Access.antt =====
-- Small updates of the state that every component makes, and `push_diag`, `finish_ft_task` and
-- `flush_panic_log`.
use nek.Common.{ℕ, ◌+◌, ◌%◌, ◌^◌, Bool, Option, none, some, [], ◌∷◌, ◌++◌, is_empty, if◌then◌else◌}
use nek.Common.Text.{Text, lit, decimal}
use nek.Common.Table.{lookup, remove}
use nek.Model.Event.{TsEvent, diag, ft_done}
use nek.Model.Wire.{OutMessage}
use nek.Model.State.{World, Task}

-- STATE.lock().pending_events.push_back(e)
abbrev pub push_event : TsEvent → World → World
push_event e w = record w {
  state = record w.state { pending_events = w.state.pending_events ++ e ∷ [] };
}

-- A request is handed to the connection library, whatever becomes of it there.
abbrev pub transmit : OutMessage → World → World
transmit m w = record w { sent = w.sent ++ m ∷ [] }

abbrev pub spawn : ℕ → Task → World → World
spawn delay task w = record w { spawned = w.spawned ++ record { delay = delay; task = task } ∷ [] }

-- The number of the message and a blank precede the text.
unfoldable pub push_diag : Text → World → World
push_diag msg w =
    push_event (diag (lit "#" ++ decimal w.diag_seq ++ lit " " ++ msg))
      (record w { diag_seq = (w.diag_seq + 1) % 2 ^ 64 })

-- A task that is gone already is left alone.
unfoldable pub finish_ft_task : ℕ → Bool → Option Text → World → World
finish_ft_task task_id ok err w = elim (lookup task_id w.ft_tasks) [
  | none ↦ w
  | some task ↦
      push_event (ft_done task_id ok task.done err)
        (record w { ft_tasks = remove task_id w.ft_tasks })
]

unfoldable pub flush_panic_log : World → World
flush_panic_log w =
    if is_empty w.panic_log then w else push_event (diag w.panic_log) (record w { panic_log = [] })
