-- ===== src/EventLoop/Ending.antt =====
-- How a connection ends: by the flag or the command of the user, by an error of the stream, or
-- because the server closed it. A loop that is not the newest changes no session state.
use nek.Common.{ℕ, Bool, false, none, [], ◌++◌, if◌then◌else◌, ◌==◌}
use nek.Common.Text.{Text, lit}
use nek.Model.{World, error, disconnected, out_disconnect, push_event, push_diag, transmit}
use nek.Sound.{schedule_sfx_teardown, schedule_teardown_after_kick_sfx}
use nek.Sound.Kind.{disconnected as sfx_disconnected, connection_lost, error as sfx_error}

-- The bookkeeping that dies with the connection.
abbrev pub clear_pending : World → World
clear_pending w = record w { ft_lists = []; ft_ops = []; perm_ops = []; command_tx = none }

abbrev set_connected : Bool → World → World
set_connected b w = record w { state = record w.state { connected = b } }

abbrev pub is_current : ℕ → World → Bool
is_current generation w = w.connection_generation == generation

-- The user's flag was seen at the top of the loop.
unfoldable pub end_by_flag : ℕ → World → World
unfolding schedule_sfx_teardown
end_by_flag generation w =
    let v : World = transmit out_disconnect (schedule_sfx_teardown sfx_disconnected w) in
    if is_current generation v
    then (let u : World =
          set_connected false (push_event (disconnected (lit "User disconnected")) v) in
        clear_pending (record u { state = record u.state { disconnect_requested = false } }))
    else v

-- `Command::Disconnect`.
unfoldable pub end_by_command : ℕ → World → World
unfolding schedule_sfx_teardown
end_by_command generation w =
    let v : World = transmit out_disconnect (schedule_sfx_teardown sfx_disconnected w) in
    if is_current generation v
    then clear_pending (set_connected false (push_event (disconnected (lit "User disconnected")) v))
    else v

-- The stream gave an error.
unfoldable pub end_by_error : ℕ → Text → World → World
unfolding schedule_sfx_teardown
end_by_error generation e w =
    if is_current generation w
    then clear_pending (
        schedule_sfx_teardown sfx_error (
          push_event (disconnected (lit "Connection error: " ++ e))
            (set_connected false (push_event (error e) w))))
    else w

-- The sound of the end: none on top of that of a kick or a ban.
abbrev last_sound : World → World
last_sound w =
    if w.sfx_suppress_disconnect
    then schedule_teardown_after_kick_sfx (record w { sfx_suppress_disconnect = false })
    else schedule_sfx_teardown connection_lost w

-- The stream ended. A kick or a ban has its own sound, which is let to finish.
unfoldable pub end_by_server : ℕ → World → World
unfolding schedule_sfx_teardown schedule_teardown_after_kick_sfx
end_by_server generation w =
    if is_current generation w
    then clear_pending (
        last_sound
          (push_event (disconnected (lit "Connection closed by server")) (set_connected false w)))
    else w

-- What the task does once the loop returned.
unfoldable pub after_loop : World → World
unfolding push_diag
after_loop w = record (push_diag (lit "event_loop: exited normally") w) { event_loop_alive = false }
