-- ===== src/Stream/Closing.antt =====
-- The end of the loop: when it has returned, and no newer connection was made, the session is
-- closed.
use nek.Common.{
  ℕ, ◌≡◌, refl, ap, ◌∙◌, sym, Bool, true, false, List, [], ◌∷◌, Bool-cases, inl, inr, ◌==◌,
}
use nek.Model.{World, Command, push_diag}
use nek.Jitter.Receive.{DecoderOps}
use nek.EventLoop.Env.{Env}
use nek.EventLoop.Voice.{VoiceOps}
use nek.EventLoop.Dispatch.{begin_iteration, drain_commands, handle_command, loop_top}
use nek.EventLoop.Ending.{
  is_current, after_loop, end_by_flag, end_by_command, end_by_server, end_by_error,
}
use nek.EventLoop.Closing.{
  End, by_flag, by_command, by_server, by_error, end_session, IsClosed, end_session-IsClosed,
}
use nek.Sound.{schedule_sfx_teardown, schedule_teardown_after_kick_sfx}
use nek.Model
use nek.Stream.Item.{StreamItem}
use nek.Stream.Poll.{
  Polled, Polls, Drained, dry, ended, errored, item, stream_error, stream_end, timeout, decode,
  put_off, drain, finish_iteration, after_first, poll_events,
}
use nek.Stream.Loop.{Round, start_loop, go_on, iterate, run_rounds, event_loop}

-- A result of a part of the loop: it goes on, or what it did last was one of the four ends.
pub data Result (g : ℕ) : World × Bool → Type 0 where
  running : (w : World) → Result g (w, false)
  closed : (e : End) (w : World) → Result g (end_session e g w, true)

begin_iteration-Result : (now g : ℕ) (w : World) → Result g (begin_iteration now g w)
unfolding begin_iteration end_session
begin_iteration-Result now g w = elim (Bool-cases (loop_top now w).state.disconnect_requested) [
  | inl e ↦ simp e (closed by_flag (loop_top now w))
  | inr e ↦ simp e (running (loop_top now w))
]

drain_commands-Result :
    (v : VoiceOps) (g : ℕ) (commands : List (Env × Command)) (w : World)
    → Result g (drain_commands v g commands w)
unfolding drain_commands handle_command end_session
drain_commands-Result v g [] w = running w
drain_commands-Result v g ((env, Model.disconnect) ∷ cs) w = closed by_command w
drain_commands-Result v g ((env, c) ∷ cs) w =
    drain_commands-Result v g cs (handle_command v g env c w)

finish_iteration-Result :
    (g : ℕ) (p : Polls) (deferred : List StreamItem) (r : World × (List StreamItem × Drained))
    → Result g (finish_iteration g p deferred r)
unfolding finish_iteration end_session
finish_iteration-Result g p deferred (w, (items, dry)) = running _
finish_iteration-Result g p deferred (w, (items, ended)) = closed by_server _
finish_iteration-Result g p deferred (w, (items, errored e)) = closed (by_error e) w

after_first-Result :
    (d : DecoderOps) (g : ℕ) (p : Polls) (first : Polled) (w : World)
    → Result g (after_first d g p first w)
unfolding after_first end_session
after_first-Result d g p (stream_error e) w = closed (by_error e) w
after_first-Result d g p stream_end w = closed by_server w
after_first-Result d g p timeout w = finish_iteration-Result g p [] (drain d p.poll_time p.rest w)
after_first-Result d g p (item i) w =
    finish_iteration-Result g p (put_off i) (drain d p.poll_time p.rest (decode d p.poll_time i w))

go_on-Result :
    (g : ℕ) (f : World → World × Bool) (r : World × Bool)
    → Result g r
    → ((w : World) → Result g (f w))
    → Result g (go_on f r)
go_on-Result g f _ (running w) h = h w
go_on-Result g f _ (closed e w) h = closed e w

iterate-Result :
    (v : VoiceOps) (d : DecoderOps) (g : ℕ) (r : Round) (w : World) → Result g (iterate v d g r w)
unfolding iterate poll_events
iterate-Result v d g r w =
    go_on-Result g (poll_events d g r.polls)
      (go_on (drain_commands v g r.commands) (begin_iteration r.now g w))
      (go_on-Result g (drain_commands v g r.commands) (begin_iteration r.now g w)
        (begin_iteration-Result r.now g w) (drain_commands-Result v g r.commands))
      (after_first-Result d g r.polls r.polls.first)

pub run_rounds-Result :
    (v : VoiceOps) (d : DecoderOps) (g : ℕ) (rounds : List Round) (w : World)
    → Result g (run_rounds v d g rounds w)
unfolding run_rounds
run_rounds-Result v d g [] w = running w
run_rounds-Result v d g (r ∷ rounds) w =
    go_on-Result g (run_rounds v d g rounds) (iterate v d g r w) (iterate-Result v d g r w)
      (run_rounds-Result v d g rounds)

generation_end :
    (e : End) (g : ℕ) (w : World)
    → (end_session e g w).connection_generation ≡ w.connection_generation
unfolding end_session end_by_flag end_by_command end_by_server end_by_error schedule_sfx_teardown
    schedule_teardown_after_kick_sfx
generation_end by_flag g w = elim (Bool-cases (is_current g w)) [
  | inl h ↦ rw h refl
  | inr h ↦ rw h refl
]
generation_end by_command g w = elim (Bool-cases (is_current g w)) [
  | inl h ↦ rw h refl
  | inr h ↦ rw h refl
]
generation_end by_server g w = elim (Bool-cases (is_current g w)) [
  | inl h ↦ elim (Bool-cases w.sfx_suppress_disconnect) [
    | inl k ↦ simp (h, k) refl
    | inr k ↦ simp (h, k) refl
  ]
  | inr h ↦ simp h refl
]
generation_end (by_error e) g w = elim (Bool-cases (is_current g w)) [
  | inl h ↦ rw h refl
  | inr h ↦ rw h refl
]

pub is_current-end_session :
    (e : End) (g : ℕ) (w : World) → is_current g (end_session e g w) ≡ is_current g w
is_current-end_session e g w = ap (λ n. n == g) (generation_end e g w)

Result-IsClosed :
    (g : ℕ) (r : World × Bool) → Result g r → r.1 ≡ true → is_current g r.0 ≡ true → IsClosed r.0
Result-IsClosed g _ (running w) h c = absurd (cc h)
Result-IsClosed g _ (closed e w) h c =
    end_session-IsClosed e g w (sym (is_current-end_session e g w) ∙ c)

after_loop-IsClosed : (w : World) → IsClosed w → IsClosed (after_loop w)
unfolding after_loop push_diag
after_loop-IsClosed w c = record {
  not_connected = c.not_connected;
  no_queue = c.no_queue;
  no_lists = c.no_lists;
  no_file_ops = c.no_file_ops;
  no_perm_ops = c.no_perm_ops;
}

-- A loop that returned, from whatever state it was in and whatever commands, items and errors it
-- met, has closed the session, unless a newer connection was made: the session is not connected,
-- there is no command queue, and no listing, file operation or permission token waits. Its task
-- has said that it is gone.
pub event_loop-IsClosed :
    (v : VoiceOps) (d : DecoderOps) (g : ℕ) (rounds : List Round) (w : World)
    → (event_loop v d g rounds w).1 ≡ true
    → is_current g (event_loop v d g rounds w).0 ≡ true
    → IsClosed (event_loop v d g rounds w).0
      × ((event_loop v d g rounds w).0.event_loop_alive ≡ false)
unfolding event_loop after_loop push_diag
event_loop-IsClosed v d g rounds w h c =
    let result = run_rounds-Result v d g rounds (start_loop g w) in
    elim (Bool-cases (run_rounds v d g rounds (start_loop g w)).1) [
      | inl e ↦ simp e (
        after_loop-IsClosed _
            (Result-IsClosed g (run_rounds v d g rounds (start_loop g w)) result e (simp e at c)),
        refl,
      )
      | inr e ↦ absurd (cc (simp e at h))
    ]
