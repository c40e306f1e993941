-- ===== src/Wav/Samples.antt =====
-- How many samples a chunk gives.
use nek.Common.{
  ℕ, zero, suc, ◌*◌, ◌/◌, ◌≡◌, refl, ap, Bool, ◌&&◌, List, length, inl, inr, Bool-cases,
  if◌then◌else◌, ◌==◌,
}
use nek.Model.{F32}
use nek.Wav.{WavOps, Fmt, Parsed, ok, err, frames, sample16, sample32, decode}

length-frames :
    (n frame_bytes : ℕ) (sample : List ℕ → F32) (bytes : List ℕ)
    → length (frames n frame_bytes sample bytes) ≡ n
unfolding frames
length-frames zero frame_bytes sample bytes = refl
length-frames (suc n) frame_bytes sample bytes = ap suc (length-frames n frame_bytes sample _)

-- How many samples came out, if any did.
abbrev pub count : Parsed (List F32) → ℕ
count (err e) = 0
count (ok samples) = length samples

abbrev is_pcm16 : Fmt → Bool
is_pcm16 f = f.format == 1 && f.bits == 16

abbrev is_float32 : Fmt → Bool
is_float32 f = f.format == 3 && f.bits == 32

-- A chunk gives one sample for each whole frame of 16-bit or 32-bit numbers, whatever the number of
-- channels, and none in another encoding.
pub count-decode :
    (o : WavOps) (f : Fmt) (chunk : List ℕ)
    → count (decode o f chunk) ≡ (
        if f.format == 1 && f.bits == 16
        then length chunk / (f.channels * 2)
        else if f.format == 3 && f.bits == 32
        then length chunk / (f.channels * 4)
        else 0)
unfolding decode
count-decode o f chunk = elim (Bool-cases (is_pcm16 f)) [
  | inl e ↦ simp e (
      length-frames (length chunk / (f.channels * 2)) (f.channels * 2) (sample16 o f.channels)
        chunk)
  | inr e ↦ elim (Bool-cases (is_float32 f)) [
    | inl g ↦
        simp (e, g)
          (length-frames (length chunk / (f.channels * 4)) (f.channels * 4) (sample32 o f.channels)
            chunk)
    | inr g ↦ simp (e, g)
  ]
]
