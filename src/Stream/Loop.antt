-- ===== src/Stream/Loop.antt =====
-- `event_loop`: its iterations one after the other, and what the task does around them.
use nek.Common.{ℕ, Bool, true, false, List, [], ◌∷◌, ◌++◌, if◌then◌else◌}
use nek.Common.Text.{lit, decimal}
use nek.Model.{World, Command, push_diag}
use nek.Jitter.Receive.{DecoderOps}
use nek.EventLoop.Env.{Env}
use nek.EventLoop.Voice.{VoiceOps}
use nek.EventLoop.Dispatch.{begin_iteration, drain_commands}
use nek.EventLoop.Ending.{after_loop}
use nek.Stream.Poll.{Polls, poll_events}

-- What one iteration meets: the time, the commands that are queued, and what it polls.
pub record Round : Type 0 where
  pub now : ℕ
  pub commands : List (Env × Command)
  pub polls : Polls

-- A step of an iteration is only taken if the ones before it did not return.
abbrev pub go_on : (World → World × Bool) → World × Bool → World × Bool
go_on f (w, true) = (w, true)
go_on f (w, false) = f w

unfoldable pub iterate : VoiceOps → DecoderOps → ℕ → Round → World → World × Bool
unfolding begin_iteration drain_commands poll_events
iterate v d g r w =
    go_on (poll_events d g r.polls)
      (go_on (drain_commands v g r.commands) (begin_iteration r.now g w))

unfoldable pub run_rounds : VoiceOps → DecoderOps → ℕ → List Round → World → World × Bool
unfolding iterate
run_rounds v d g [] w = (w, false)
run_rounds v d g (r ∷ rounds) w = go_on (run_rounds v d g rounds) (iterate v d g r w)

-- The task takes the connection out of the stash and begins.
abbrev pub start_loop : ℕ → World → World
unfolding push_diag
start_loop g w = record (push_diag (lit "event_loop: started (gen=" ++ decimal g ++ lit ")") w) {
  event_loop_alive = true;
  connection_stash = false;
}

-- The body of the task: once the loop returned, the task says that it is gone.
unfoldable pub event_loop : VoiceOps → DecoderOps → ℕ → List Round → World → World × Bool
unfolding run_rounds push_diag after_loop
event_loop v d g rounds w =
    let (u, returned) = run_rounds v d g rounds (start_loop g w) in
    if returned then (after_loop u, true) else (u, false)
