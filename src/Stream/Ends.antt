-- ===== src/Stream/Ends.antt =====
-- The audio command and the ends of a connection end no transfer.
use nek.Common.{
  ℕ, zero, suc, ◌≡◌, refl, ◌∙◌, arith, Option, none, some, List, ◌++◌, inl, inr, Bool-cases, length,
  ltb, take, drop,
}
use nek.Common.Text.{Text}
use nek.Model.{World, F32, frame_size}
use nek.Sound.{schedule_sfx_teardown, schedule_teardown_after_kick_sfx}
use nek.EventLoop.Voice.{
  VoiceOps, on_send_audio, send_frames, take_frame, process_frame, encode_frame, send_packet, vad,
  is_loud, apply_gain,
}
use nek.EventLoop.Ending.{end_by_flag, end_by_command, end_by_error, end_by_server, is_current}
use nek.Items.Done.{due_endings, endings-append}

module _ (id : ℕ) where
  due-send_packet :
      (v : VoiceOps) (seq : ℕ) (p : Option (List ℕ)) (w : World)
      → due_endings id (send_packet v seq p w) ≡ due_endings id w
  unfolding due_endings
  due-send_packet v seq none w = refl
  due-send_packet v seq (some data') w = elim (Bool-cases (v.packet_sent seq data')) [
    | inl e ↦ rw e refl
    | inr e ↦ rw e refl
  ]

  due-encode_frame :
      (v : VoiceOps) (frame : List F32) (w : World)
      → due_endings id (encode_frame v frame w) ≡ due_endings id w
  unfolding encode_frame due_endings
  due-encode_frame v frame w = elim (Bool-cases w.state.audio_encoder) [
    | inl e ↦ simp e (
        due-send_packet v w.state.audio_seq
          (v.encode w.state.audio_seq (apply_gain v.ops w.state.mic_gain frame)) w)
    | inr e ↦ simp e refl
  ]

  due-process_frame :
      (v : VoiceOps) (frame : List F32) (w : World)
      → due_endings id (process_frame v frame w) ≡ due_endings id w
  unfolding process_frame due_endings
  due-process_frame v frame w =
      let r = vad w.state.vad_enabled (is_loud v.ops w.state frame) w.state.vad_hold in
      elim (Bool-cases r.0) [
        | inl e ↦ simp e refl
        | inr e ↦
            simp e
              (due-encode_frame v frame (record w { state = record w.state { vad_hold = r.1 } }))
      ]

  due-send_frames :
      (v : VoiceOps) (fuel : ℕ) (w : World)
      → due_endings id (send_frames v fuel w) ≡ due_endings id w
  unfolding send_frames take_frame due_endings
  due-send_frames v zero w = refl
  due-send_frames v (suc fuel) w = elim (Bool-cases (ltb (length w.state.pcm_in) frame_size)) [
    | inl e ↦ simp e refl
    | inr e ↦ simp e (
        due-send_frames v fuel (take_frame v w)
        ∙ due-process_frame v (take frame_size w.state.pcm_in)
            (record w { state = record w.state { pcm_in = drop frame_size w.state.pcm_in } }))
  ]

  pub due-on_send_audio :
      (v : VoiceOps) (samples : List F32) (w : World)
      → due_endings id (on_send_audio v samples w) ≡ due_endings id w
  unfolding on_send_audio due_endings
  due-on_send_audio v samples w =
      let u : World = record w { state = record w.state { pcm_in = w.state.pcm_in ++ samples } } in
      due-send_frames v (length u.state.pcm_in) u

  pub due-end_by_flag : (g : ℕ) (w : World) → due_endings id (end_by_flag g w) ≡ due_endings id w
  unfolding end_by_flag schedule_sfx_teardown due_endings
  due-end_by_flag g w = elim (Bool-cases (is_current g w)) [
    | inl e ↦ simp e (omega (arith, endings-append))
    | inr e ↦ simp e refl
  ]

  pub due-end_by_command :
      (g : ℕ) (w : World) → due_endings id (end_by_command g w) ≡ due_endings id w
  unfolding end_by_command schedule_sfx_teardown due_endings
  due-end_by_command g w = elim (Bool-cases (is_current g w)) [
    | inl e ↦ simp e (omega (arith, endings-append))
    | inr e ↦ simp e refl
  ]

  pub due-end_by_error :
      (g : ℕ) (e : Text) (w : World) → due_endings id (end_by_error g e w) ≡ due_endings id w
  unfolding end_by_error schedule_sfx_teardown due_endings
  due-end_by_error g t w = elim (Bool-cases (is_current g w)) [
    | inl e ↦ simp e (omega (arith, endings-append))
    | inr e ↦ simp e refl
  ]

  pub due-end_by_server :
      (g : ℕ) (w : World) → due_endings id (end_by_server g w) ≡ due_endings id w
  unfolding end_by_server schedule_sfx_teardown schedule_teardown_after_kick_sfx due_endings
  due-end_by_server g w = elim (Bool-cases (is_current g w)) [
    | inl e ↦ elim (Bool-cases w.sfx_suppress_disconnect) [
      | inl k ↦ simp (e, k) (omega (arith, endings-append))
      | inr k ↦ simp (e, k) (omega (arith, endings-append))
    ]
    | inr e ↦ simp e refl
  ]
