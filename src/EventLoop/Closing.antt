-- ===== src/EventLoop/Closing.antt =====
-- What the four ends of a connection have in common.
use nek.Common.{ℕ, ◌≡◌, true, false, none, List, [], ◌∷◌, ◌++◌, append_assoc, arith}
use nek.Common.Text.{Text, lit}
use nek.Model.{World, TsEvent, error, disconnected}
use nek.EventLoop.Ending.{is_current, end_by_flag, end_by_command, end_by_error, end_by_server}

-- The ways in which the loop of a connection ends.
pub data End : Type 0 where
  by_flag by_command by_server : End
  by_error : Text → End

unfoldable pub end_session : End → ℕ → World → World
unfolding end_by_flag end_by_command end_by_error end_by_server
end_session by_flag g w = end_by_flag g w
end_session by_command g w = end_by_command g w
end_session by_server g w = end_by_server g w
end_session (by_error e) g w = end_by_error g e w

-- The session is over, and nothing is left that waits for an answer.
pub record IsClosed (w : World) : Type 0 where
  pub not_connected : w.state.connected ≡ false
  pub no_queue : w.command_tx ≡ none
  pub no_lists : w.ft_lists ≡ []
  pub no_file_ops : w.ft_ops ≡ []
  pub no_perm_ops : w.perm_ops ≡ []

-- Each end of the newest connection closes the session: it is not connected, it has no command
-- queue, and no listing, file operation or permission token waits for an answer.
pub end_session-IsClosed :
    (e : End) (g : ℕ) (w : World) → is_current g w ≡ true → IsClosed (end_session e g w)
unfolding end_session
end_session-IsClosed by_flag g w h = ground arith
end_session-IsClosed by_command g w h = ground arith
end_session-IsClosed by_server g w h = ground arith
end_session-IsClosed (by_error e) g w h = ground arith

-- What Dart is told of each end.
abbrev pub last_events : End → List TsEvent
last_events by_flag = disconnected (lit "User disconnected") ∷ []
last_events by_command = disconnected (lit "User disconnected") ∷ []
last_events by_server = disconnected (lit "Connection closed by server") ∷ []
last_events (by_error e) = error e ∷ disconnected (lit "Connection error: " ++ e) ∷ []

-- Each end of the newest connection tells Dart so, behind all earlier events.
pub end_session_tells :
    (e : End) (g : ℕ) (w : World)
    → is_current g w ≡ true
    → (end_session e g w).state.pending_events ≡ w.state.pending_events ++ last_events e
unfolding end_session
end_session_tells by_flag g w h = rw h
end_session_tells by_command g w h = rw h
end_session_tells by_server g w h = ground arith
end_session_tells (by_error e) g w h = rw (h, append_assoc)
