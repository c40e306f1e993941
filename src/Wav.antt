-- ===== src/Wav.antt =====
-- `parse_wav_pcm` of native/src/lib.rs: the samples of a sound from the bytes of a RIFF/WAVE file.
-- The double arithmetic of the resampling is an argument.
pub mod Chunks
pub mod Samples
pub mod File
pub mod Builtin
mod Examples
use nek.Common.{
  ℕ, zero, suc, ◌+◌, ◌-◌, ◌*◌, ◌/◌, ◌%◌, Bool, true, false, not, ◌&&◌, ◌||◌, Option, none, some,
  List, [], ◌∷◌, ◌++◌, length, take, drop, get_or, is_empty, if◌then◌else◌, ltb, ◌==◌, unwrap_or,
}
use nek.Common.Text.{Text, lit, decimal, text_eq}
use nek.Model.{ℤ, pos, negsuc, F32, F32Ops}

-- A double is its bit pattern.
abbrev pub F64 : Type 0
F64 = ℕ

pub record WavOps : Type 0 where
  pub ops : F32Ops
  -- `as f32` of an i64, `as f64` of an unsigned number, `as f32` of an f64
  pub f32_of : ℤ → F32
  pub f64_of : ℕ → F64
  pub f32_of_f64 : F64 → F32
  pub div64 : F64 → F64 → F64
  pub mul64 : F64 → F64 → F64
  pub sub64 : F64 → F64 → F64
  pub gt64 : F64 → F64 → Bool
  -- `.ceil() as usize`, `.floor() as usize`
  pub ceil : F64 → ℕ
  pub floor : F64 → ℕ
  -- `{:.3}`
  pub show3 : F64 → Text

pub data Parsed (A : Type 0) : Type 0 where
  ok : A → Parsed A
  err : Text → Parsed A

-- Numbers from their bytes, the lowest first.
abbrev pub le : List ℕ → ℕ
le [] = 0
le (b ∷ bs) = b + 256 * le bs

-- The `fmt ` chunk: format, channels, rate, bits.
pub record Fmt : Type 0 where
  pub format : ℕ
  pub channels : ℕ
  pub rate : ℕ
  pub bits : ℕ

abbrev pub Found : Type 0
Found = Option Fmt × List (List ℕ)

abbrev pub read_fmt : List ℕ → Fmt
read_fmt chunk = record {
  format = le (take 2 chunk);
  channels = le (take 2 (drop 2 chunk));
  rate = le (take 4 (drop 4 chunk));
  bits = le (take 2 (drop 14 chunk));
}

-- One chunk: a second `fmt ` replaces the first, the `data` chunks are gathered.
unfoldable pub on_chunk : List ℕ → List ℕ → Found → Parsed Found
on_chunk id chunk (fmt, chunks) =
    if text_eq id (lit "fmt ")
    then if ltb (length chunk) 16
      then err (lit "fmt chunk too short")
      else ok (some (read_fmt chunk), chunks)
    else if text_eq id (lit "data")
    then ok (fmt, chunks ++ chunk ∷ [])
    else ok (fmt, chunks)

-- The walk over the chunks in the bytes that are left; nothing, if the fuel runs out before it is
-- done. A chunk that is cut short ends it; behind a chunk of odd size stands a byte of padding.
unfoldable pub walk : ℕ → List ℕ → Found → Option (Parsed Found)
walk zero bytes found = none
walk (suc fuel) bytes found =
    let size = le (take 4 (drop 4 bytes)) in
    let body = drop 8 bytes in
    if ltb (length bytes) 8
    then some (ok found)
    else if ltb (length body) size
    then some (ok found)
    else elim (on_chunk (take 4 bytes) (take size body) found) [
      | err e ↦ some (err e)
      | ok found' ↦ walk fuel (drop (size + size % 2) body) found'
    ]

abbrev pub i16 : ℕ → ℤ
i16 v = if ltb v 32768 then pos v else negsuc (65535 - v)

infixl 60 ◌+ℤ◌
abbrev pub ◌+ℤ◌ : ℤ → ℤ → ℤ
pos a +ℤ pos b = pos (a + b)
negsuc a +ℤ negsuc b = negsuc (suc (a + b))
pos a +ℤ negsuc b = if ltb b a then pos (a - suc b) else negsuc (b - a)
negsuc a +ℤ pos b = if ltb a b then pos (b - suc a) else negsuc (a - b)

-- The sum of the channels of a frame.
unfoldable pub sum16 : ℕ → List ℕ → ℤ
sum16 zero bytes = pos 0
sum16 (suc channels) bytes = i16 (le (take 2 bytes)) +ℤ sum16 channels (drop 2 bytes)

-- The running sum of the channels, from the first on.
unfoldable pub sum32 : F32Ops → ℕ → F32 → List ℕ → F32
sum32 o zero sum bytes = sum
sum32 o (suc channels) sum bytes = sum32 o channels (o.add sum (le (take 4 bytes))) (drop 4 bytes)

-- The frames of a chunk, each turned into a sample; bytes behind the last whole frame are left.
unfoldable pub frames : ℕ → ℕ → (List ℕ → F32) → List ℕ → List F32
frames zero frame_bytes sample bytes = []
frames (suc n) frame_bytes sample bytes =
    sample bytes ∷ frames n frame_bytes sample (drop frame_bytes bytes)

abbrev pub all_frames : ℕ → (List ℕ → F32) → List ℕ → List F32
all_frames frame_bytes sample chunk = frames (length chunk / frame_bytes) frame_bytes sample chunk

-- 32768 as an f32 divides.
abbrev pub sample16 : WavOps → ℕ → List ℕ → F32
sample16 o channels bytes =
    o.ops.div (o.ops.div (o.f32_of (sum16 channels bytes)) (o.f32_of (pos channels))) 0x4700_0000

abbrev pub sample32 : WavOps → ℕ → List ℕ → F32
sample32 o channels bytes = o.ops.div (sum32 o.ops channels 0 bytes) (o.f32_of (pos channels))

unfoldable pub decode : WavOps → Fmt → List ℕ → Parsed (List F32)
unfolding sum16 sum32 frames
decode o f chunk =
    if f.format == 1 && f.bits == 16
    then ok (all_frames (f.channels * 2) (sample16 o f.channels) chunk)
    else if f.format == 3 && f.bits == 32
    then ok (all_frames (f.channels * 4) (sample32 o f.channels) chunk)
    else err (
        lit "unsupported WAV encoding format="
        ++ decimal f.format
        ++ lit " bits="
        ++ decimal f.bits
        ++ lit " (expected PCM 16-bit or float32)")

unfoldable pub decode_all : WavOps → Fmt → List (List ℕ) → Parsed (List F32)
unfolding decode
decode_all o f [] = ok []
decode_all o f (chunk ∷ chunks) = elim (decode o f chunk) [
  | err e ↦ err e
  | ok samples ↦ elim (decode_all o f chunks) [ err e ↦ err e | ok more ↦ ok (samples ++ more) ]
]

-- Sample `i` of the resampled sound: between the two that stand around its position.
abbrev pub interpolate : WavOps → F64 → List F32 → ℕ → F32
interpolate o ratio pcm i =
    let at = o.mul64 (o.f64_of i) ratio in
    let idx = o.floor at in
    let a = get_or pcm idx 0 in
    let b = get_or pcm (suc idx) a in
    o.ops.add a (o.ops.mul (o.ops.sub b a) (o.f32_of_f64 (o.sub64 at (o.f64_of idx))))

-- The samples from number `i` on; `n` are left.
unfoldable pub resample : WavOps → F64 → List F32 → ℕ → ℕ → List F32
resample o ratio pcm zero i = []
resample o ratio pcm (suc n) i = interpolate o ratio pcm i ∷ resample o ratio pcm n (suc i)

abbrev pub target_rate : ℕ
target_rate = 48000

-- 2.0 as an f64.
abbrev pub max_seconds : F64
max_seconds = 0x4000_0000_0000_0000

unfoldable pub finish : WavOps → ℕ → List F32 → Parsed (List F32)
unfolding resample
finish o rate pcm =
    let seconds = o.div64 (o.f64_of (length pcm)) (o.f64_of rate) in
    let out_len =
      o.ceil (o.div64 (o.mul64 (o.f64_of (length pcm)) (o.f64_of target_rate)) (o.f64_of rate)) in
    if is_empty pcm
    then err (lit "no audio data")
    else if o.gt64 seconds max_seconds
    then err (lit "audio too long (" ++ o.show3 seconds ++ lit "s > 2s)")
    else if rate == target_rate
    then ok pcm
    else ok (resample o (o.div64 (o.f64_of rate) (o.f64_of target_rate)) pcm out_len 0)

unfoldable pub render : WavOps → Found → Parsed (List F32)
unfolding decode_all finish
render o (none, chunks) = err (lit "missing fmt chunk")
render o (some f, chunks) =
    if f.rate == 0
    then err (lit "invalid sample rate 0")
    else if not (f.channels == 1) && not (f.channels == 2)
    then err (lit "unsupported channel count " ++ decimal f.channels)
    else elim (decode_all o f chunks) [ err e ↦ err e | ok pcm ↦ finish o f.rate pcm ]

abbrev pub is_riff : List ℕ → Bool
is_riff bytes =
    not (ltb (length bytes) 12)
    && text_eq (take 4 bytes) (lit "RIFF")
    && text_eq (take 4 (drop 8 bytes)) (lit "WAVE")

-- A walk out of fuel, which does not occur, is an error of its own.
abbrev pub render_found : WavOps → Option (Parsed Found) → Parsed (List F32)
render_found o none = err (lit "out of fuel")
render_found o (some (err e)) = err e
render_found o (some (ok found)) = render o found

unfoldable pub parse_wav_pcm : WavOps → List ℕ → Parsed (List F32)
unfolding walk render
parse_wav_pcm o bytes =
    if is_riff bytes
    then render_found o (walk (length bytes) (drop 12 bytes) (none, []))
    else err (lit "not a RIFF/WAVE file")
