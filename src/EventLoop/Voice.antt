-- ===== src/EventLoop/Voice.antt =====
-- `Command::SendAudio`: the microphone samples are cut into frames; each frame passes the voice
-- detection and is encoded and sent.
use mathlib.Core.List.{foldl}
use nek.Common.{
  ℕ, zero, suc, ◌+◌, ◌-◌, ◌%◌, ◌^◌, Bool, true, false, Option, none, some, List, [], ◌++◌, map,
  length, take, drop, ltb, if◌then◌else◌,
}
use nek.Model.{World, TsConnection, F32, F32Ops, f32_one, frame_size, out_audio, transmit}

-- What the codec and the connection do with a frame: the encoded packet, if the encoder makes
-- one of the frame, and whether the packet goes out.
pub record VoiceOps : Type 0 where
  pub ops : F32Ops
  pub encode : ℕ → List F32 → Option (List ℕ)
  pub packet_sent : ℕ → List ℕ → Bool

abbrev pub hold_frames : ℕ
hold_frames = 10

-- The root of the mean square; 960 as an f32 divides.
abbrev pub rms : F32Ops → List F32 → F32
rms o frame = o.sqrt (o.div (foldl o.add 0 (map (λ s. o.mul s s) frame)) 0x4470_0000)

-- Whether the frame is dropped, and the frames that are still let through behind a loud one.
unfoldable pub vad : Bool → Bool → ℕ → Bool × ℕ
vad enabled loud hold =
    if enabled
    then if loud
      then (false, hold_frames)
      else if ltb 0 hold
      then (false, hold - 1)
      else (true, hold)
    else (false, hold)

abbrev pub is_loud : F32Ops → TsConnection → List F32 → Bool
is_loud o s frame = o.ge (rms o frame) s.vad_threshold

-- A gain within 0.001 of 1 leaves the samples as they are.
abbrev pub apply_gain : F32Ops → F32 → List F32 → List F32
apply_gain o gain frame =
    if o.gt (o.abs (o.sub gain f32_one)) 0x3a83_126f
    then map (λ s. o.clamp (o.mul s gain) 0xbf80_0000 f32_one) frame
    else frame

abbrev pub send_packet : VoiceOps → ℕ → Option (List ℕ) → World → World
send_packet v seq none w = w
send_packet v seq (some opus_data) w =
    let u : World =
      transmit (out_audio seq opus_data)
        (record w { state = record w.state { audio_seq = (seq + 1) % 2 ^ 16 } }) in
    if v.packet_sent seq opus_data
    then record u { state = record u.state { voice_active = true } }
    else u

-- Without an encoder the samples that wait are thrown away.
unfoldable pub encode_frame : VoiceOps → List F32 → World → World
encode_frame v frame w =
    if w.state.audio_encoder
    then send_packet v w.state.audio_seq
        (v.encode w.state.audio_seq (apply_gain v.ops w.state.mic_gain frame)) w
    else record w { state = record w.state { pcm_in = [] } }

unfoldable pub process_frame : VoiceOps → List F32 → World → World
unfolding vad encode_frame
process_frame v frame w =
    let (dropped, hold) = vad w.state.vad_enabled (is_loud v.ops w.state frame) w.state.vad_hold in
    let u : World = record w { state = record w.state { vad_hold = hold } } in
    if dropped then u else encode_frame v frame u

-- One frame is taken from the front of the samples.
unfoldable pub take_frame : VoiceOps → World → World
unfolding process_frame
take_frame v w =
    process_frame v (take frame_size w.state.pcm_in)
      (record w { state = record w.state { pcm_in = drop frame_size w.state.pcm_in } })

-- The loop, with fuel.
unfoldable pub send_frames : VoiceOps → ℕ → World → World
unfolding take_frame
send_frames v zero w = w
send_frames v (suc fuel) w =
    let rest = send_frames v fuel (take_frame v w) in
    if ltb (length w.state.pcm_in) frame_size then w else rest

unfoldable pub on_send_audio : VoiceOps → List F32 → World → World
unfolding send_frames
on_send_audio v samples w =
    let u : World = record w { state = record w.state { pcm_in = w.state.pcm_in ++ samples } } in
    send_frames v (length u.state.pcm_in) u
