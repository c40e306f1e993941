-- ===== src/Stream/Returns.antt =====
-- When an iteration is the last one.
use nek.Common.{
  ℕ, ◌≡◌, refl, ap, ◌∙◌, Bool, true, false, ◌||◌, List, [], ◌∷◌, any, Bool-cases, inl, inr,
}
use nek.Model.{World, Command}
use nek.Jitter.Receive.{DecoderOps}
use nek.EventLoop.Env.{Env}
use nek.EventLoop.Voice.{VoiceOps}
use nek.EventLoop.Dispatch.{
  begin_iteration, drain_commands, is_disconnect, handle_command, loop_top,
}
use nek.Stream.Item.{StreamItem}
use nek.Stream.Poll.{
  Polled, Polls, Drained, dry, ended, errored, item, stream_error, stream_end, timeout, decode,
  put_off, drain, finish_iteration, after_first, poll_events,
}
use nek.Stream.Loop.{Round, go_on, iterate}

-- Whether the polls that come before the first timeout tell of the end or of an error.
abbrev pub is_over : List Polled → Bool
is_over [] = false
is_over (item i ∷ polls) = is_over polls
is_over (stream_error e ∷ polls) = true
is_over (stream_end ∷ polls) = true
is_over (timeout ∷ polls) = false

abbrev pub polls_over : Polled → List Polled → Bool
polls_over (item i) rest = is_over rest
polls_over (stream_error e) rest = true
polls_over stream_end rest = true
polls_over timeout rest = is_over rest

abbrev is_last : Drained → Bool
is_last dry = false
is_last ended = true
is_last (errored e) = true

drain_over :
    (d : DecoderOps) (now : ℕ) (polls : List Polled) (w : World)
    → is_last (drain d now polls w).1.1 ≡ is_over polls
unfolding drain
drain_over d now [] w = refl
drain_over d now (item i ∷ polls) w = drain_over d now polls (decode d now i w)
drain_over d now (stream_error e ∷ polls) w = refl
drain_over d now (stream_end ∷ polls) w = refl
drain_over d now (timeout ∷ polls) w = refl

finish_over :
    (g : ℕ) (p : Polls) (deferred : List StreamItem) (r : World × (List StreamItem × Drained))
    → (finish_iteration g p deferred r).1 ≡ is_last r.1.1
unfolding finish_iteration
finish_over g p deferred (w, (items, dry)) = refl
finish_over g p deferred (w, (items, ended)) = refl
finish_over g p deferred (w, (items, errored e)) = refl

poll_events_over :
    (d : DecoderOps) (g : ℕ) (p : Polls) (first : Polled) (w : World)
    → (after_first d g p first w).1 ≡ polls_over first p.rest
unfolding after_first
poll_events_over d g p (stream_error e) w = refl
poll_events_over d g p stream_end w = refl
poll_events_over d g p timeout w =
    finish_over g p [] (drain d p.poll_time p.rest w) ∙ drain_over d p.poll_time p.rest w
poll_events_over d g p (item i) w =
    finish_over g p (put_off i) (drain d p.poll_time p.rest (decode d p.poll_time i w))
    ∙ drain_over d p.poll_time p.rest (decode d p.poll_time i w)

drain_commands_over :
    (v : VoiceOps) (g : ℕ) (commands : List (Env × Command)) (w : World)
    → (drain_commands v g commands w).1 ≡ any (λ c. is_disconnect c.1) commands
unfolding drain_commands
drain_commands_over v g [] w = refl
drain_commands_over v g ((env, c) ∷ cs) w = elim (Bool-cases (is_disconnect c)) [
  | inl e ↦ rw e refl
  | inr e ↦ rw e (drain_commands_over v g cs (handle_command v g env c w))
]

begin_over :
    (now g : ℕ) (w : World)
    → (begin_iteration now g w).1 ≡ (w.swipe_disconnect || w.state.disconnect_requested)
unfolding begin_iteration loop_top
begin_over now g w = elim (Bool-cases w.swipe_disconnect) [
  | inl e ↦ simp e refl
  | inr e ↦ elim (Bool-cases w.state.disconnect_requested) [
    | inl f ↦ simp (e, f) refl
    | inr f ↦ simp (e, f) refl
  ]
]

go_on_over :
    (f : World → World × Bool) (r : World × Bool) (b : Bool)
    → ((w : World) → (f w).1 ≡ b)
    → (go_on f r).1 ≡ (r.1 || b)
go_on_over f (w, true) b h = refl
go_on_over f (w, false) b h = h w

-- An iteration is the last one exactly if the app was swiped away or the user's flag is set, a
-- command to disconnect is among those that are queued, or the stream tells of its end or of an
-- error before the first timeout of the draining. Nothing else ends the loop, and nothing of this
-- goes unnoticed.
pub iterate_returns :
    (v : VoiceOps) (d : DecoderOps) (g : ℕ) (r : Round) (w : World)
    → (iterate v d g r w).1 ≡ (
        ((w.swipe_disconnect || w.state.disconnect_requested)
          || any (λ c. is_disconnect c.1) r.commands)
        || polls_over r.polls.first r.polls.rest)
unfolding iterate poll_events
iterate_returns v d g r w =
    go_on_over (poll_events d g r.polls)
      (go_on (drain_commands v g r.commands) (begin_iteration r.now g w)) _
      (poll_events_over d g r.polls r.polls.first)
    ∙ ap (λ b. b || polls_over r.polls.first r.polls.rest)
        (go_on_over (drain_commands v g r.commands) (begin_iteration r.now g w) _
            (drain_commands_over v g r.commands)
          ∙ ap (λ b. b || any (λ c. is_disconnect c.1) r.commands) (begin_over r.now g w))
