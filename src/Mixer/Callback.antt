-- ===== src/Mixer/Callback.antt =====
-- The callback itself: a frame is mixed when its slot is entered, and copied out over as many
-- calls as it takes.
use nek.Common.{
  ℕ, zero, suc, ◌+◌, ◌-◌, ◌/◌, ◌%◌, ◌^◌, List, [], ◌∷◌, ◌++◌, map, take, drop, leb, if◌then◌else◌,
  ◌==◌,
}
use Prim.Native.Nat.{min}
use nek.Model.{World, F32, f32_one, frame_size}
use nek.Mixer.Frame.{MixOps, collect, attenuate, silence}
use nek.Mixer.Sounds.{SfxSlot, free_slot, start_sounds, play_slots}

-- What a stream keeps from call to call: the slot that is mixed, the mix, and the sounds.
pub record Mixer : Type 0 where
  pub mix_slot : ℕ
  pub mix_buf : List F32
  pub sfx_slots : List SfxSlot

-- The mixer of a new stream: no slot was mixed yet.
abbrev pub new_mixer : Mixer
new_mixer = record {
  mix_slot = 2 ^ 64 - 1;
  mix_buf = silence;
  sfx_slots = free_slot ∷ free_slot ∷ [];
}

abbrev pub clamp_unit : MixOps → List F32 → List F32
clamp_unit o mix = map (λ s. o.ops.clamp s 0xbf80_0000 f32_one) mix

-- Mixes a slot: the frames are taken from the buffers, and the requests from the queue.
unfoldable pub mix_frame : MixOps → ℕ → World × Mixer → World × Mixer
unfolding collect start_sounds play_slots
mix_frame o slot (w, m) =
    let v =
      collect o slot w.active_client_ids
        (record { buffers = w.client_buffers; mix = silence; active = 0 }) in
    let (slots, mix) =
      play_slots o w.sfx_samples (start_sounds w.sfx_queue m.sfx_slots)
        (attenuate o v.active v.mix) in
    (
      record w { client_buffers = v.buffers; sfx_queue = [] },
      record { mix_slot = slot; mix_buf = clamp_unit o mix; sfx_slots = slots },
    )

-- A slot is mixed when it is entered.
abbrev pub enter_slot : MixOps → ℕ → World × Mixer → World × Mixer
enter_slot o slot s = if slot == s.1.mix_slot then s else mix_frame o slot s

-- The loop that fills the output, from a slot and an offset in it, with the samples that are
-- left; each round copies one at least, so that their number is fuel enough.
unfoldable pub fill : MixOps → ℕ → ℕ → ℕ → ℕ → World × Mixer → (World × Mixer) × List F32
unfolding mix_frame
fill o zero slot offset left s = (s, [])
fill o (suc fuel) slot offset left s =
    let v = enter_slot o slot s in
    let copy = min left (frame_size - offset) in
    let wraps = leb frame_size (offset + copy) in
    let (u, out) =
      fill o fuel (if wraps then slot + 1 else slot) (if wraps then 0 else offset + copy)
        (left - copy) v in
    if left == 0 then (s, []) else (u, take copy (drop offset v.1.mix_buf) ++ out)

-- One call, for so many samples.
unfoldable pub audio_callback : MixOps → ℕ → World × Mixer → (World × Mixer) × List F32
unfolding fill
audio_callback o len (w, m) =
    let played = w.played_samples in
    let ((v, n), out) = fill o len (played / frame_size) (played % frame_size) len (w, m) in
    ((record v { played_samples = (v.played_samples + len) % 2 ^ 64 }, n), out)
