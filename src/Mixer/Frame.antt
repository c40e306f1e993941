-- ===== src/Mixer/Frame.antt =====
-- The voices of one frame: collected from the buffers of the clients, and attenuated.
use nek.Common.{ℕ, ◌+◌, Option, none, some, List, [], ◌∷◌, map, ltb, if◌then◌else◌, replicate}
use nek.Common.Table.{Table, lookup, insert}
use nek.Model.{F32, F32Ops, Frame, ClientJitterBuffer, f32_one, frame_size}
use nek.Jitter.{take_frame}

-- The conversions of a 16-bit sample and of a count to f32, with the arithmetic.
pub record MixOps : Type 0 where
  pub ops : F32Ops
  pub from_i16 : ℕ → F32
  pub from_u32 : ℕ → F32

-- What the collecting of the frames has come to.
pub record Voices : Type 0 where
  pub buffers : Table ClientJitterBuffer
  pub mix : List F32
  pub active : ℕ

-- mix_buf[i] += frame[i] as f32 * vol
unfoldable pub add_voice : MixOps → F32 → Frame → List F32 → List F32
add_voice o vol [] mix = mix
add_voice o vol (s ∷ frame) [] = []
add_voice o vol (s ∷ frame) (m ∷ mix) =
    o.ops.add m (o.ops.mul (o.from_i16 s) vol) ∷ add_voice o vol frame mix

abbrev pub mix_in : MixOps → F32 → Option Frame → Voices → Voices
mix_in o vol none v = v
mix_in o vol (some frame) v = record v { mix = add_voice o vol frame v.mix; active = v.active + 1 }

-- One client of the snapshot gives its frame for a slot, if it has one.
unfoldable pub collect_client : MixOps → ℕ → ℕ → Voices → Voices
unfolding take_frame add_voice
collect_client o slot id v = elim (lookup id v.buffers) [
  | none ↦ v
  | some b ↦
      mix_in o b.volume (take_frame slot b).1
        (record v { buffers = insert id (take_frame slot b).0 v.buffers })
]

unfoldable pub collect : MixOps → ℕ → List ℕ → Voices → Voices
unfolding collect_client
collect o slot [] v = v
collect o slot (id ∷ ids) v = collect o slot ids (collect_client o slot id v)

-- The more speakers there are, the softer each one is.
abbrev pub attenuation : MixOps → ℕ → F32
attenuation o active =
    if ltb 0 active then o.ops.div f32_one (o.ops.sqrt (o.from_u32 active)) else f32_one

abbrev pub attenuate : MixOps → ℕ → List F32 → List F32
attenuate o active mix =
    map
      (λ s.
        o.ops.div (o.ops.clamp (o.ops.mul s (attenuation o active)) 0xc700_0000 0x46ff_fe00)
          0x4700_0000)
      mix

abbrev pub silence : List F32
silence = replicate frame_size 0
