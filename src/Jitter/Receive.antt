-- ===== src/Jitter/Receive.antt =====
-- The rest of `decode_to_client_buffer`: the decoders, the buffer of the client, and who talks.
use nek.Common.{
  ℕ, zero, suc, ◌+◌, ◌*◌, ◌/◌, ◌%◌, ◌^◌, Bool, true, false, Option, none, some, List, [], ◌∷◌, map,
  any, find, if◌then◌else◌, ◌==◌, get_or, unwrap_or,
}
use nek.Common.Text.{Text}
use nek.Common.Table.{lookup, insert}
use nek.Common.TextTable
use nek.Model.{
  World, TsConnection, TsClient, F32, F32Ops, Frame, ClientJitterBuffer, client_jitter_buffer_new,
  frame_size,
}
use nek.Jitter.{receive_frame}
use Prim.Native.Nat.{min}

-- The decoders of the codec library. `mono` gives its verdict and what it left in the buffer of
-- 960 samples; `stereo` the number of decoded sample pairs, and its buffer of 1920 samples.
pub record DecoderOps : Type 0 where
  pub ops : F32Ops
  pub mono : List ℕ → Bool × List F32
  pub stereo : List ℕ → Option ℕ × List F32
  -- `as i16`, as a bit pattern
  pub to_i16 : F32 → ℕ

abbrev pub add_key : ℕ → List ℕ → List ℕ
add_key id ids = if any (λ j. j == id) ids then ids else id ∷ ids

-- Overwrites the first `n` samples by the averages of the pairs of the stereo buffer.
unfoldable pub downmix : F32Ops → ℕ → ℕ → List F32 → List F32 → List F32
downmix o n i stereo [] = []
downmix o zero i stereo (s ∷ pcm) = s ∷ pcm
downmix o (suc n) i stereo (s ∷ pcm) =
    o.mul (o.add (get_or stereo (i * 2) 0) (get_or stereo (i * 2 + 1) 0)) 0x3f00_0000
    ∷ downmix o n (i + 1) stereo pcm

-- The samples of the packet; the stereo decoder has its turn if the mono one fails.
unfoldable pub decode_samples : DecoderOps → ℕ → List ℕ → World → World × Option (List F32)
unfolding downmix
decode_samples d from_id packet w =
    let v : World = record w { audio_decoders = add_key from_id w.audio_decoders } in
    let u : World = record v { audio_decoders_stereo = add_key from_id v.audio_decoders_stereo } in
    let (decoded, pcm) = d.mono packet in
    let (pairs, stereo_out) = d.stereo packet in
    if decoded then (v, some pcm) else elim pairs [
      | none ↦ (u, none)
      | some n ↦ (u, some (downmix d.ops (min n frame_size) 0 stereo_out pcm))
    ]

-- A sample is cut to [-1, 1], scaled, and cut again.
abbrev pub to_sample : DecoderOps → F32 → ℕ
to_sample d s = d.to_i16 (
    d.ops.clamp (d.ops.mul (d.ops.clamp s 0xbf80_0000 0x3f80_0000) 0x46ff_fe00) 0xc700_0000
      0x46ff_fe00)

abbrev uid_of : Option TsClient → Option Text
uid_of none = none
uid_of (some c) = c.uid

abbrev persisted : Option Text → List (Text × F32) → Option F32
persisted none volumes = none
persisted (some uid) volumes = TextTable.lookup uid volumes

abbrev with_volume : F32Ops → Option F32 → ClientJitterBuffer → ClientJitterBuffer
with_volume o none b = b
with_volume o (some db) b = record b { volume = o.powf 0x4120_0000 (o.div db 0x41a0_0000) }

-- A new buffer has the volume that was kept for the user.
unfoldable pub new_buffer : F32Ops → ℕ → TsConnection → ClientJitterBuffer
unfolding client_jitter_buffer_new TextTable.lookup
new_buffer o from_id s =
    with_volume o
      (persisted (uid_of (find (λ (c : TsClient). c.id % 2 ^ 16 == from_id) s.clients))
        s.client_volumes)
      client_jitter_buffer_new

abbrev pub note_talking : ℕ → ℕ → Bool → World → World
note_talking from_id now false w = w
note_talking from_id now true w = record w {
  state = record w.state { talking_clients = insert from_id now w.state.talking_clients };
}

-- Hands a decoded frame to the buffer of its client.
unfoldable pub store_frame : F32Ops → ℕ → ℕ → ℕ → Frame → World → World
store_frame o now from_id seq frame w =
    let old = unwrap_or (lookup from_id w.client_buffers) (new_buffer o from_id w.state) in
    let (b, accepted) = receive_frame now (w.played_samples / frame_size) seq frame old in
    note_talking from_id now accepted
      (record w { client_buffers = insert from_id b w.client_buffers })

-- An audio packet of a client, with its 16-bit number.
unfoldable pub decode_to_client_buffer : DecoderOps → ℕ → ℕ → ℕ → List ℕ → World → World
unfolding decode_samples
decode_to_client_buffer d now from_id seq packet w =
    let (v, samples) = decode_samples d from_id packet w in
    elim samples [
      | none ↦ v
      | some pcm ↦ store_frame d.ops now from_id seq (map (to_sample d) pcm) v
    ]
