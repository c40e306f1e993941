-- ===== src/Stream/Tells.antt =====
-- What Dart is told last of a session: the end of the loop, whatever led to it.
use nek.Common.{ℕ, ◌≡◌, refl, ◌∙◌, sym, Bool, true, List, [], ◌∷◌, ◌++◌, Bool-cases, inl, inr}
use nek.Common.Text.{lit, decimal}
use nek.Model.{World, TsEvent, diag, push_diag}
use nek.Jitter.Receive.{DecoderOps}
use nek.EventLoop.Voice.{VoiceOps}
use nek.EventLoop.Ending.{is_current, after_loop}
use nek.EventLoop.Closing.{End, last_events, end_session_tells}
use nek.Stream.Loop.{Round, start_loop, run_rounds, event_loop}
use nek.Stream.Closing.{Result, running, closed, run_rounds-Result, is_current-end_session}

-- The last events are those of one of the four ends, whichever it was.
pub record EndsWith (events : List TsEvent) : Type 0 where
  pub reason : End
  pub earlier : List TsEvent
  pub told : events ≡ earlier ++ last_events reason

-- Behind them comes the diagnostic of the task.
pub record ToldEnd (w : World) : Type 0 where
  pub number : ℕ
  pub before : List TsEvent
  pub ended : EndsWith before
  pub said :
      w.state.pending_events
      ≡ before
        ++ diag (lit "#" ++ decimal number ++ lit " " ++ lit "event_loop: exited normally") ∷ []

Result-EndsWith :
    (g : ℕ) (r : World × Bool)
    → Result g r
    → r.1 ≡ true
    → is_current g r.0 ≡ true
    → EndsWith r.0.state.pending_events
Result-EndsWith g _ (running w) h c = absurd (cc h)
Result-EndsWith g _ (closed e w) h c = record {
  reason = e;
  earlier = w.state.pending_events;
  told = end_session_tells e g w (sym (is_current-end_session e g w) ∙ c);
}

after_loop-ToldEnd : (w : World) → EndsWith w.state.pending_events → ToldEnd (after_loop w)
unfolding after_loop push_diag
after_loop-ToldEnd w ended = record {
  number = w.diag_seq;
  before = w.state.pending_events;
  ended = ended;
  said = refl;
}

-- A loop that returned, from whatever state it was in and whatever commands, items and errors it
-- met, has told Dart so, if no newer connection was made: the last events are those of one of the
-- four ends, a disconnect with its reason among them, and behind them the diagnostic that the task
-- is gone.
pub event_loop-ToldEnd :
    (v : VoiceOps) (d : DecoderOps) (g : ℕ) (rounds : List Round) (w : World)
    → (event_loop v d g rounds w).1 ≡ true
    → is_current g (event_loop v d g rounds w).0 ≡ true
    → ToldEnd (event_loop v d g rounds w).0
unfolding event_loop after_loop push_diag
event_loop-ToldEnd v d g rounds w h c =
    let r = run_rounds v d g rounds (start_loop g w) in
    elim (Bool-cases r.1) [
      | inl e ↦ simp e (
          after_loop-ToldEnd r.0
            (Result-EndsWith g r (run_rounds-Result v d g rounds (start_loop g w)) e (simp e at c)))
      | inr e ↦ absurd (cc (simp e at h))
    ]
