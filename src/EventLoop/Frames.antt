-- ===== src/EventLoop/Frames.antt =====
-- The microphone samples are taken frame by frame, to the last full one.
use nek.Common.{
  ℕ, zero, suc, ◌+◌, ◌-◌, ◌%◌, ◌≤◌, ◌<◌, ◌≡◌, refl, ap, ◌∙◌, Bool, true, false, Option, none, some,
  List, [], ◌++◌, inl, inr, arith, if◌then◌else◌, ltb, Bool-cases, length, take, drop, length-drop,
  length-append,
}
use Prim.Native.Nat.{min}
use nek.Model.{World, F32, frame_size}
use nek.EventLoop.Voice.{
  VoiceOps, is_loud, vad, send_packet, encode_frame, process_frame, take_frame, send_frames,
  on_send_audio,
}

abbrev waiting : World → ℕ
waiting w = length w.state.pcm_in

pcm_in-send_packet :
    (v : VoiceOps) (seq : ℕ) (o : Option (List ℕ)) (w : World)
    → (send_packet v seq o w).state.pcm_in ≡ w.state.pcm_in
pcm_in-send_packet v seq none w = refl
pcm_in-send_packet v seq (some opus_data) w = elim (Bool-cases (v.packet_sent seq opus_data)) [
  | inl e ↦ rw e
  | inr e ↦ rw e
]

encoder-send_packet :
    (v : VoiceOps) (seq : ℕ) (o : Option (List ℕ)) (w : World)
    → (send_packet v seq o w).state.audio_encoder ≡ w.state.audio_encoder
encoder-send_packet v seq none w = refl
encoder-send_packet v seq (some opus_data) w = elim (Bool-cases (v.packet_sent seq opus_data)) [
  | inl e ↦ rw e
  | inr e ↦ rw e
]

-- What a frame leaves of the samples that wait: all with an encoder, none without.
abbrev left : Bool → List F32 → List F32
left true pcm = pcm
left false pcm = []

pcm_in-encode_frame :
    (v : VoiceOps) (frame : List F32) (w : World) (b : Bool)
    → w.state.audio_encoder ≡ b
    → (encode_frame v frame w).state.pcm_in ≡ left b w.state.pcm_in
unfolding encode_frame
pcm_in-encode_frame v frame w true e = rw (e, pcm_in-send_packet)
pcm_in-encode_frame v frame w false e = rw e

encoder-encode_frame :
    (v : VoiceOps) (frame : List F32) (w : World)
    → (encode_frame v frame w).state.audio_encoder ≡ w.state.audio_encoder
unfolding encode_frame
encoder-encode_frame v frame w = elim (Bool-cases w.state.audio_encoder) [
  | inl e ↦ rw (e, encoder-send_packet)
  | inr e ↦ rw e
]

abbrev dropped : VoiceOps → List F32 → World → Bool
dropped v frame w = (vad w.state.vad_enabled (is_loud v.ops w.state frame) w.state.vad_hold).0

abbrev held : VoiceOps → List F32 → World → World
held v frame w =
    let hold = (vad w.state.vad_enabled (is_loud v.ops w.state frame) w.state.vad_hold).1 in
    record w { state = record w.state { vad_hold = hold } }

abbrev with_pcm : List F32 → World → World
with_pcm pcm w = record w { state = record w.state { pcm_in = pcm } }

pcm_in-process_frame :
    (v : VoiceOps) (frame : List F32) (w : World)
    → w.state.audio_encoder ≡ true
    → (process_frame v frame w).state.pcm_in ≡ w.state.pcm_in
unfolding process_frame
pcm_in-process_frame v frame w e = elim (Bool-cases (dropped v frame w)) [
  | inl d ↦ rw d
  | inr d ↦ rw d (pcm_in-encode_frame v frame (held v frame w) true e)
]

encoder-process_frame :
    (v : VoiceOps) (frame : List F32) (w : World)
    → (process_frame v frame w).state.audio_encoder ≡ w.state.audio_encoder
unfolding process_frame
encoder-process_frame v frame w = elim (Bool-cases (dropped v frame w)) [
  | inl d ↦ rw d
  | inr d ↦ rw d (encoder-encode_frame v frame (held v frame w))
]

waiting-left : (b : Bool) (pcm : List F32) → length (left b pcm) ≤ length pcm
waiting-left true pcm = omega arith
waiting-left false pcm = omega arith

waiting-process_frame :
    (v : VoiceOps) (frame : List F32) (w : World) → waiting (process_frame v frame w) ≤ waiting w
unfolding process_frame
waiting-process_frame v frame w = elim (Bool-cases (dropped v frame w)) [
  | inl d ↦ rw d (omega arith)
  | inr d ↦
      rw (d, pcm_in-encode_frame v frame (held v frame w) w.state.audio_encoder refl)
        (waiting-left w.state.audio_encoder w.state.pcm_in)
]

waiting-take_frame : (v : VoiceOps) (w : World) → waiting (take_frame v w) ≤ waiting w - frame_size
unfolding take_frame
waiting-take_frame v w = omega (
  arith,
  waiting-process_frame v (take frame_size w.state.pcm_in)
      (with_pcm (drop frame_size w.state.pcm_in) w),
  length-drop frame_size w.state.pcm_in,
)

waiting-send_frames :
    (v : VoiceOps) (fuel : ℕ) (w : World)
    → waiting w ≤ fuel
    → waiting (send_frames v fuel w) < frame_size
unfolding send_frames
waiting-send_frames v zero w h = omega arith
waiting-send_frames v (suc fuel) w h = elim (Bool-cases (ltb (waiting w) frame_size)) [
  | inl e ↦ rw e (ground arith)
  | inr e ↦ rw e (
      waiting-send_frames v fuel (take_frame v w) (omega (arith, waiting-take_frame v w, full w e)))
]
  where
    full : (u : World) → ltb (waiting u) frame_size ≡ false → frame_size ≤ waiting u
    full u e = ground arith

-- However many samples come and wait, with or without an encoder, the loop is done within its
-- fuel: behind it less than one frame waits.
pub waiting-on_send_audio :
    (v : VoiceOps) (samples : List F32) (w : World)
    → length (on_send_audio v samples w).state.pcm_in < frame_size
unfolding on_send_audio
waiting-on_send_audio v samples w =
    waiting-send_frames v (length (w.state.pcm_in ++ samples))
      (with_pcm (w.state.pcm_in ++ samples) w) (omega arith)

pcm_in-take_frame :
    (v : VoiceOps) (w : World)
    → w.state.audio_encoder ≡ true
    → (take_frame v w).state.pcm_in ≡ drop frame_size w.state.pcm_in
unfolding take_frame
pcm_in-take_frame v w e =
    pcm_in-process_frame v (take frame_size w.state.pcm_in)
      (with_pcm (drop frame_size w.state.pcm_in) w) e

encoder-take_frame :
    (v : VoiceOps) (w : World) → (take_frame v w).state.audio_encoder ≡ w.state.audio_encoder
unfolding take_frame
encoder-take_frame v w =
    encoder-process_frame v (take frame_size w.state.pcm_in)
      (with_pcm (drop frame_size w.state.pcm_in) w)

remainder-send_frames :
    (v : VoiceOps) (fuel : ℕ) (w : World)
    → waiting w ≤ fuel
    → w.state.audio_encoder ≡ true
    → waiting (send_frames v fuel w) ≡ waiting w % frame_size
unfolding send_frames
remainder-send_frames v zero w h enc = omega arith
remainder-send_frames v (suc fuel) w h enc = elim (Bool-cases (ltb (waiting w) frame_size)) [
  | inl e ↦ rw e (ground arith)
  | inr e ↦ rw e (
      omega (
        arith,
        remainder-send_frames v fuel (take_frame v w)
            (omega (arith, waiting-take_frame v w, full w e)) (encoder-take_frame v w ∙ enc),
        ap length (pcm_in-take_frame v w enc),
        length-drop frame_size w.state.pcm_in,
        full w e,
      ))
]
  where
    full : (u : World) → ltb (waiting u) frame_size ≡ false → frame_size ≤ waiting u
    full u e = ground arith

-- With an encoder as many samples wait behind the loop as the whole frames leave over, of those
-- that waited before and those that came.
pub remainder-on_send_audio :
    (v : VoiceOps) (samples : List F32) (w : World)
    → w.state.audio_encoder ≡ true
    → length (on_send_audio v samples w).state.pcm_in
      ≡ (length w.state.pcm_in + length samples) % frame_size
unfolding on_send_audio
remainder-on_send_audio v samples w enc = omega (
  arith,
  remainder-send_frames v (length (w.state.pcm_in ++ samples))
      (with_pcm (w.state.pcm_in ++ samples) w) (omega arith) enc,
  length-append w.state.pcm_in samples,
)

-- How many of `n` quiet frames pass the detection, one after the other, with `hold` to begin with.
abbrev pub quiet_passed : ℕ → ℕ → ℕ
quiet_passed zero hold = 0
quiet_passed (suc n) hold =
    let (gone, hold') = vad true false hold in
    let rest = quiet_passed n hold' in if gone then rest else suc rest

quiet_passed-min : (n hold : ℕ) → quiet_passed n hold ≡ min n hold
unfolding vad
quiet_passed-min zero hold = omega arith
quiet_passed-min (suc n) zero = omega (arith, quiet_passed-min n 0)
quiet_passed-min (suc n) (suc hold) = ground (arith, quiet_passed-min n hold)

-- Behind a loud frame exactly the first ten quiet frames, or all if they are fewer, pass the
-- detection while it is on.
pub quiet_passed_lem : (n hold : ℕ) → quiet_passed n (vad true true hold).1 ≡ min n 10
unfolding vad
quiet_passed_lem n hold = quiet_passed-min n 10
