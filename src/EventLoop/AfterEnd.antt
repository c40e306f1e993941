-- ===== src/EventLoop/AfterEnd.antt =====
-- The calls after the end of a session.
use nek.Common.{ℕ, ◌≡◌, true, false, List, length, replicate}
use nek.Model.{World}
use nek.Calls.Refusal.{FileOps, AnyCall, any_calls, NoLoop, any_calls_refused}
use nek.EventLoop.Ending.{is_current}
use nek.EventLoop.Closing.{End, end_session, end_session-IsClosed, IsClosed}

NoLoop-closed : (w : World) → w.state.connected ≡ false → NoLoop w
NoLoop-closed w h = record { no_files = simp h; nowhere = λ cmd. simp h }

-- Once the newest session has ended, in whatever way, nothing is queued any more: any calls that
-- queue a command (on messages, moves, mute, microphone samples, away, pokes, kicks, bans, groups,
-- permissions, listings, directories, deletes, downloads, uploads and avatars), one after the
-- other, leave everything as the end left it and return 0 each. The two calls to disconnect are
-- not among them.
pub any_calls-end_session :
    (o : FileOps) (cs : List AnyCall) (e : End) (g : ℕ) (w : World)
    → is_current g w ≡ true
    → any_calls o cs (end_session e g w) ≡ (end_session e g w, replicate (length cs) 0)
any_calls-end_session o cs e g w h =
    any_calls_refused o cs (end_session e g w)
      (NoLoop-closed (end_session e g w) (IsClosed.not_connected (end_session-IsClosed e g w h)))
