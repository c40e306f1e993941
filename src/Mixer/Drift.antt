-- ===== src/Mixer/Drift.antt =====
-- When the statistics of the callback tell of a drift of the audio clock.
use nek.Common.{
  ℕ, zero, suc, ◌+◌, ◌-◌, ◌/◌, ◌%◌, ◌^◌, ◌≡◌, ◌≢◌, refl, sym, ap, ◌∙◌, arith, Bool, true, false,
  List, [], ◌∷◌, if◌then◌else◌, ◌==◌, leb, inl, inr, Bool-cases,
}
use Prim.Native.Nat.{min}
use nek.Model.{World, frame_size}
use nek.Sound.{restart_output_stream}
use nek.Mixer.Frame.{MixOps}
use nek.Mixer.Callback.{Mixer, enter_slot, fill, audio_callback}
use nek.Mixer.Calls.{played-enter_slot}
use nek.Mixer.Stats.{CallbackStats, is_drift, mix_count, enter_stats, leave_stats, counted_callback}

played-fill :
    (o : MixOps) (fuel slot offset left : ℕ) (s : World × Mixer)
    → (fill o fuel slot offset left s).0.0.played_samples ≡ s.0.played_samples
unfolding fill
played-fill o zero slot offset left s = refl
played-fill o (suc fuel) slot offset left s = elim (Bool-cases (left == 0)) [
  | inl e ↦ simp e refl
  | inr e ↦
      let copy = min left (frame_size - offset) in
      let wraps = leb frame_size (offset + copy) in
      simp e (
        played-fill o fuel (if wraps then slot + 1 else slot) (if wraps then 0 else offset + copy)
          (left - copy) (enter_slot o slot s)
        ∙ played-enter_slot o slot s)
]

played-audio_callback :
    (o : MixOps) (len : ℕ) (s : World × Mixer)
    → (audio_callback o len s).0.0.played_samples ≡ (s.0.played_samples + len) % 2 ^ 64
unfolding audio_callback
played-audio_callback o len s =
    let p = s.0.played_samples in
    ap (λ k. (k + len) % 2 ^ 64) (played-fill o len (p / frame_size) (p % frame_size) len s)

-- Calls one after the other: what the clock of each shows, and the samples that it asks for.
unfoldable pub counted_calls :
    MixOps → List (ℕ × ℕ) → CallbackStats × (World × Mixer) → CallbackStats × (World × Mixer)
unfolding counted_callback
counted_calls o [] r = r
counted_calls o ((elapsed, len) ∷ calls) r =
    counted_calls o calls (counted_callback o elapsed len r).0

abbrev pub samples_of : List (ℕ × ℕ) → ℕ
samples_of [] = 0
samples_of ((elapsed, len) ∷ calls) = len + samples_of calls

mismatches-enter_stats :
    (elapsed played : ℕ) (st : CallbackStats)
    → is_drift st played ≡ false
    → (enter_stats elapsed played st).played_mismatches ≡ st.played_mismatches
unfolding enter_stats
mismatches-enter_stats elapsed played st h = simp h refl

mismatches-leave_stats :
    (len mixes played : ℕ) (st : CallbackStats)
    → (leave_stats len mixes played played st).played_mismatches ≡ st.played_mismatches
unfolding leave_stats
mismatches-leave_stats len mixes played st =
    let same : (played == played) ≡ true = ground arith in simp same refl

-- Where the clock went on from the last call, a call counts no drift.
no_drift :
    (st : CallbackStats) (played : ℕ)
    → st.expected_next_played ≡ played
    → is_drift st played ≡ false
no_drift st played h = ground arith

mismatches-counted_callback :
    (o : MixOps) (elapsed len : ℕ) (st : CallbackStats) (s : World × Mixer)
    → is_drift st s.0.played_samples ≡ false
    → (counted_callback o elapsed len (st, s)).0.0.played_mismatches ≡ st.played_mismatches
unfolding counted_callback
mismatches-counted_callback o elapsed len st (w, m) h =
    mismatches-leave_stats len _ w.played_samples (enter_stats elapsed w.played_samples st)
    ∙ mismatches-enter_stats elapsed w.played_samples st h

drift-counted_callback :
    (o : MixOps) (elapsed len : ℕ) (st : CallbackStats) (s : World × Mixer)
    → let r = (counted_callback o elapsed len (st, s)).0 in
      is_drift r.0 r.1.0.played_samples ≡ false
unfolding counted_callback leave_stats
drift-counted_callback o elapsed len st (w, m) =
    no_drift (counted_callback o elapsed len (st, (w, m))).0.0 _
      (sym (played-audio_callback o len (w, m)))

-- However many calls follow one another, of whatever lengths and also where the counter wraps
-- around, none counts a drift, if the first one finds the counter where it is expected.
pub mismatches-counted_calls :
    (o : MixOps) (calls : List (ℕ × ℕ)) (st : CallbackStats) (s : World × Mixer)
    → is_drift st s.0.played_samples ≡ false
    → (counted_calls o calls (st, s)).0.played_mismatches ≡ st.played_mismatches
unfolding counted_calls
mismatches-counted_calls o [] st s h = refl
mismatches-counted_calls o ((elapsed, len) ∷ calls) st s h =
    let r = (counted_callback o elapsed len (st, s)).0 in
    mismatches-counted_calls o calls r.0 r.1 (drift-counted_callback o elapsed len st s)
    ∙ mismatches-counted_callback o elapsed len st s h

-- A new stream starts its counter anew, but the statistics do not: behind a call that left them
-- expecting samples, the first call of the new stream counts a drift, which is none.
pub restarted_drift :
    (o : MixOps) (started : Bool) (elapsed len : ℕ) (st : CallbackStats) (w : World) (m : Mixer)
    → st.expected_next_played ≢ 0
    → ((counted_callback o elapsed len (st, (restart_output_stream started w, m))).0
      ).0.played_mismatches
      ≡ (st.played_mismatches + 1) % 2 ^ 64
unfolding counted_callback restart_output_stream enter_stats
restarted_drift o started elapsed len st w m h =
    let drift : is_drift st 0 ≡ true = ground arith in
    mismatches-leave_stats len (mix_count len 0 0 len m.mix_slot) 0 (enter_stats elapsed 0 st)
    ∙ simp drift refl
