-- ===== src/Stream/Transfers.antt =====
-- The transfers over the whole life of an event loop.
use nek.Common.{
  ℕ, ◌≡◌, refl, ◌∙◌, arith, Bool, true, false, List, [], ◌∷◌, ◌++◌, inl, inr, Bool-cases,
  Option-cases, map,
}
use nek.Common.Text.{Text, lit}
use nek.Model.{World, push_diag}
use nek.EventLoop.Voice.{VoiceOps}
use nek.EventLoop.Dispatch.{drain_commands, begin_iteration}
use nek.EventLoop.Ending.{after_loop}
use nek.Jitter.Receive.{
  DecoderOps, decode_to_client_buffer, decode_samples, store_frame, note_talking, to_sample,
}
use nek.Items.Done.{due_endings, due-push_diag, endings-append}
use nek.Stream.Item.{StreamItem, handle_items, audio}
use nek.Stream.Poll.{
  Polled, Polls, Drained, dry, ended, errored, item, stream_error, stream_end, timeout, decode,
  put_off, drain, drain_raw_incoming, finish_iteration, after_first, poll_events,
}
use nek.Stream.Loop.{Round, go_on, iterate, run_rounds, start_loop, event_loop}
use nek.Stream.Ends.{due-end_by_error, due-end_by_server}
use nek.Stream.Endings.{due_endings-handle_items}
use nek.Stream.TopHalf.{due-drain_commands, due-begin_iteration}

module _ (id : ℕ) where
  due-note_talking :
      (from_id now : ℕ) (b : Bool) (w : World)
      → due_endings id (note_talking from_id now b w) ≡ due_endings id w
  unfolding due_endings
  due-note_talking from_id now true w = refl
  due-note_talking from_id now false w = refl

  due-decode_samples :
      (d : DecoderOps) (from_id : ℕ) (packet : List ℕ) (w : World)
      → due_endings id (decode_samples d from_id packet w).0 ≡ due_endings id w
  unfolding decode_samples due_endings
  due-decode_samples d from_id packet w = elim (Bool-cases (d.mono packet).0) [
    | inl e ↦ simp e refl
    | inr e ↦ elim (Option-cases (d.stereo packet).0) [
      | inl f ↦ simp (e, f) refl
      | inr (n, f) ↦ simp (e, f) refl
    ]
  ]

  due-store_frame :
      (d : DecoderOps) (now from_id seq : ℕ) (frame : List ℕ) (w : World)
      → due_endings id (store_frame d.ops now from_id seq frame w) ≡ due_endings id w
  unfolding store_frame due_endings
  due-store_frame d now from_id seq frame w = due-note_talking from_id now _ _

  due-decode_to_client_buffer :
      (d : DecoderOps) (now from_id seq : ℕ) (packet : List ℕ) (w : World)
      → due_endings id (decode_to_client_buffer d now from_id seq packet w) ≡ due_endings id w
  unfolding decode_to_client_buffer
  due-decode_to_client_buffer d now from_id seq packet w =
      let r = decode_samples d from_id packet w in
      elim (Option-cases r.1) [
        | inl e ↦ rw (e, decode_to_client_buffer) (due-decode_samples d from_id packet w)
        | inr (pcm, e) ↦
            rw (e, decode_to_client_buffer)
              (due-store_frame d now from_id seq (map (to_sample d) pcm) r.0
                ∙ due-decode_samples d from_id packet w)
      ]

  due-decode :
      (d : DecoderOps) (now : ℕ) (i : StreamItem) (w : World)
      → due_endings id (decode d now i w) ≡ due_endings id w
  unfolding decode_to_client_buffer
  due-decode d now (audio from_id seq packet) w =
      due-decode_to_client_buffer d now from_id seq packet w
  due-decode d now _ w = refl

  due-drain :
      (d : DecoderOps) (now : ℕ) (polls : List Polled) (w : World)
      → due_endings id (drain d now polls w).0 ≡ due_endings id w
  unfolding drain
  due-drain d now [] w = refl
  due-drain d now (item i ∷ polls) w =
      due-drain d now polls (decode d now i w) ∙ due-decode d now i w
  due-drain d now (stream_error e ∷ polls) w = refl
  due-drain d now (stream_end ∷ polls) w = refl
  due-drain d now (timeout ∷ polls) w = refl

  due-drain_raw_incoming :
      (lines : List Text) (w : World)
      → due_endings id (drain_raw_incoming lines w) ≡ due_endings id w
  unfolding drain_raw_incoming
  due-drain_raw_incoming [] w = refl
  due-drain_raw_incoming (l ∷ ls) w =
      due-drain_raw_incoming ls (push_diag (lit "raw in: " ++ l) w) ∙ due-push_diag id _ w

  due-handled :
      (p : Polls) (deferred items : List StreamItem) (w : World)
      → due_endings id
          (drain_raw_incoming p.raw (handle_items p.scene deferred (handle_items p.scene items w)))
        ≡ due_endings id w
  due-handled p deferred items w =
      let v = handle_items p.scene items w in
      due-drain_raw_incoming p.raw (handle_items p.scene deferred v)
      ∙ due_endings-handle_items id p.scene deferred v
      ∙ due_endings-handle_items id p.scene items w

  due-finish_iteration :
      (g : ℕ) (p : Polls) (deferred : List StreamItem) (r : World × (List StreamItem × Drained))
      → due_endings id (finish_iteration g p deferred r).0 ≡ due_endings id r.0
  unfolding finish_iteration
  due-finish_iteration g p deferred (w, (items, errored e)) = due-end_by_error id g e w
  due-finish_iteration g p deferred (w, (items, dry)) = due-handled p deferred items w
  due-finish_iteration g p deferred (w, (items, ended)) =
      due-end_by_server id g
        (drain_raw_incoming p.raw (handle_items p.scene deferred (handle_items p.scene items w)))
      ∙ due-handled p deferred items w

  due-after_first :
      (d : DecoderOps) (g : ℕ) (p : Polls) (first : Polled) (w : World)
      → due_endings id (after_first d g p first w).0 ≡ due_endings id w
  unfolding after_first
  due-after_first d g p (stream_error e) w = due-end_by_error id g e w
  due-after_first d g p stream_end w = due-end_by_server id g w
  due-after_first d g p timeout w =
      due-finish_iteration g p [] (drain d p.poll_time p.rest w) ∙ due-drain d p.poll_time p.rest w
  due-after_first d g p (item i) w =
      due-finish_iteration g p (put_off i) (drain d p.poll_time p.rest (decode d p.poll_time i w))
      ∙ due-drain d p.poll_time p.rest (decode d p.poll_time i w)
      ∙ due-decode d p.poll_time i w

  due-go_on :
      (f : World → World × Bool) (r : World × Bool)
      → ((w : World) → due_endings id (f w).0 ≡ due_endings id w)
      → due_endings id (go_on f r).0 ≡ due_endings id r.0
  due-go_on f (w, true) h = refl
  due-go_on f (w, false) h = h w

  due-iterate :
      (v : VoiceOps) (d : DecoderOps) (g : ℕ) (r : Round) (w : World)
      → due_endings id (iterate v d g r w).0 ≡ due_endings id w
  unfolding iterate poll_events
  due-iterate v d g r w =
      due-go_on (poll_events d g r.polls)
        (go_on (drain_commands v g r.commands) (begin_iteration r.now g w))
        (due-after_first d g r.polls r.polls.first)
      ∙ due-go_on (drain_commands v g r.commands) (begin_iteration r.now g w)
          (due-drain_commands id v g r.commands)
      ∙ due-begin_iteration id r.now g w

  due-run_rounds :
      (v : VoiceOps) (d : DecoderOps) (g : ℕ) (rounds : List Round) (w : World)
      → due_endings id (run_rounds v d g rounds w).0 ≡ due_endings id w
  unfolding run_rounds
  due-run_rounds v d g [] w = refl
  due-run_rounds v d g (r ∷ rounds) w =
      due-go_on (run_rounds v d g rounds) (iterate v d g r w) (due-run_rounds v d g rounds)
      ∙ due-iterate v d g r w

  due-start_loop : (g : ℕ) (w : World) → due_endings id (start_loop g w) ≡ due_endings id w
  unfolding push_diag due_endings
  due-start_loop g w = omega (arith, endings-append)

  due-after_loop : (w : World) → due_endings id (after_loop w) ≡ due_endings id w
  unfolding after_loop push_diag due_endings
  due-after_loop w = omega (arith, endings-append)

-- Over the whole life of an event loop, whatever commands, items, errors and ends it meets, the
-- endings of a transfer that were told and those to come stay the same in number: the loop tells
-- of no end of a task that goes on, and takes no task away without telling.
pub due_endings-event_loop :
    (id : ℕ) (v : VoiceOps) (d : DecoderOps) (g : ℕ) (rounds : List Round) (w : World)
    → due_endings id (event_loop v d g rounds w).0 ≡ due_endings id w
unfolding event_loop
due_endings-event_loop id v d g rounds w =
    let r = run_rounds v d g rounds (start_loop g w) in
    let run = due-run_rounds id v d g rounds (start_loop g w) ∙ due-start_loop id g w in
    elim (Bool-cases r.1) [ inl e ↦ simp e (due-after_loop id r.0 ∙ run) | inr e ↦ simp e run ]
