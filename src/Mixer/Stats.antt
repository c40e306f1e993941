-- ===== src/Mixer/Stats.antt =====
-- The statistics of the callback (`CallbackStats` in native/src/lib.rs): what a call counts before
-- and behind its loop, and the tick that prints them.
use nek.Common.{
  ℕ, zero, suc, ◌+◌, ◌-◌, ◌/◌, ◌%◌, ◌^◌, Bool, not, ◌&&◌, Option, none, some, List, leb, ltb,
  if◌then◌else◌, ◌==◌,
}
use Prim.Native.Nat.{min}
use nek.Model.{World, F32, frame_size}
use nek.Mixer.Frame.{MixOps}
use nek.Mixer.Callback.{Mixer, audio_callback}

pub record CallbackStats : Type 0 where
  pub callbacks : ℕ
  pub samples_total : ℕ
  pub mix_frames : ℕ
  pub expected_next_played : ℕ
  pub played_mismatches : ℕ
  pub last_interval_us : ℕ
  pub last_cb_entry_ns : ℕ

abbrev pub cb_stats : CallbackStats
cb_stats = record {
  callbacks = 0;
  samples_total = 0;
  mix_frames = 0;
  expected_next_played = 0;
  played_mismatches = 0;
  last_interval_us = 0;
  last_cb_entry_ns = 0;
}

abbrev add64 : ℕ → ℕ → ℕ
add64 a b = (a + b) % 2 ^ 64

abbrev sub64 : ℕ → ℕ → ℕ
sub64 a b = (a + 2 ^ 64 - b) % 2 ^ 64

-- Whether the counter of the samples is not where the last call left it; 0 stands for no call.
abbrev pub is_drift : CallbackStats → ℕ → Bool
is_drift st played = not (st.expected_next_played == 0) && not (played == st.expected_next_played)

abbrev count_mismatch : Bool → CallbackStats → CallbackStats
count_mismatch b st =
    if b then record st { played_mismatches = add64 st.played_mismatches 1 } else st

-- Before the loop; `elapsed` are the nanoseconds that the clock of this call shows.
unfoldable pub enter_stats : ℕ → ℕ → CallbackStats → CallbackStats
enter_stats elapsed played st =
    let u = count_mismatch (is_drift st played) st in
    record u {
      last_cb_entry_ns = elapsed;
      last_interval_us =
          if u.last_cb_entry_ns == 0
          then u.last_interval_us
          else sub64 elapsed u.last_cb_entry_ns / 1000;
    }

-- The frames that the loop mixes: those whose slot is not the one that was mixed last.
unfoldable pub mix_count : ℕ → ℕ → ℕ → ℕ → ℕ → ℕ
mix_count zero slot offset left mixed = 0
mix_count (suc fuel) slot offset left mixed =
    let copy = min left (frame_size - offset) in
    let wraps = leb frame_size (offset + copy) in
    let rest =
      mix_count fuel (if wraps then slot + 1 else slot) (if wraps then 0 else offset + copy)
        (left - copy) slot in
    if left == 0 then 0 else (if slot == mixed then 0 else 1) + rest

-- Behind the loop: `old` is the counter of the samples as it was when the call's were added.
unfoldable pub leave_stats : ℕ → ℕ → ℕ → ℕ → CallbackStats → CallbackStats
leave_stats len mixes played old st =
    let u = record st {
      callbacks = add64 st.callbacks 1;
      samples_total = add64 st.samples_total len;
      mix_frames = add64 st.mix_frames mixes;
    } in
    record (count_mismatch (not (old == played)) u) { expected_next_played = add64 old len }

-- A whole call, with its statistics. Nothing else moves the counter while it runs.
unfoldable pub counted_callback :
    MixOps → ℕ → ℕ → CallbackStats × (World × Mixer) → (CallbackStats × (World × Mixer)) × List F32
unfolding audio_callback enter_stats leave_stats mix_count
counted_callback o elapsed len (st, (w, m)) =
    let played = w.played_samples in
    let mixes = mix_count len (played / frame_size) (played % frame_size) len m.mix_slot in
    let (s, out) = audio_callback o len (w, m) in
    ((leave_stats len mixes played played (enter_stats elapsed played st), s), out)

-- What the tick prints.
pub record StatsLine : Type 0 where
  pub line_callbacks : ℕ
  pub line_samples : ℕ
  pub line_mix_frames : ℕ
  pub line_interval_us : ℕ
  pub line_mismatches : ℕ

-- The tick: the counters begin anew, and a line is printed if there was a call.
unfoldable pub stats_tick : CallbackStats → CallbackStats × Option StatsLine
stats_tick st = (
  record st {
    callbacks = 0;
    samples_total = 0;
    mix_frames = 0;
    played_mismatches = 0;
    last_interval_us = 0;
  },
  if ltb 0 st.callbacks
      then some (record {
        line_callbacks = st.callbacks;
        line_samples = st.samples_total;
        line_mix_frames = st.mix_frames;
        line_interval_us = st.last_interval_us;
        line_mismatches = st.played_mismatches;
      })
      else none,
)
