-- ===== src/Calls/Queue.antt =====
-- Queueing a command for the event loop: `read_cstr`, `try_send_cmd`, and the block that each
-- call has around `tx.send`.
use nek.Common.{
  ℕ, Bool, true, false, Option, none, some, [], ◌∷◌, ◌++◌, if◌then◌else◌, unwrap_or, is_empty,
}
use nek.Common.Text.{Text}
use nek.Model.{World, CommandQueue, Command}

abbrev pub read_cstr : Option Text → Text
read_cstr p = unwrap_or p []

-- A text that is empty stands for none.
abbrev pub non_empty : Text → Option Text
non_empty s = if is_empty s then none else some s

abbrev pub enqueue : Command → CommandQueue → CommandQueue
enqueue cmd tx = record tx { queue = tx.queue ++ cmd ∷ [] }

-- `tx.send(cmd).is_ok()` for the sender in COMMAND_TX, and false if there is none.
unfoldable pub send_cmd : Command → World → World × Bool
send_cmd cmd w = elim w.command_tx [
  | none ↦ (w, false)
  | some tx ↦
      if tx.receiver_alive
      then (record w { command_tx = some (enqueue cmd tx) }, true)
      else (w, false)
]

abbrev pub as_u8 : World × Bool → World × ℕ
as_u8 (w, true) = (w, 1)
as_u8 (w, false) = (w, 0)

unfoldable pub try_send_cmd : Command → World → World × Bool
unfolding send_cmd
try_send_cmd cmd w = if w.state.connected then send_cmd cmd w else (w, false)
