-- ===== src/Wav/Examples.antt =====
-- The parser on concrete bytes, and the theorems about it at an input.
use nek.Common.{
  ℕ, ◌+◌, ◌*◌, ◌/◌, ◌≡◌, refl, none, some, is_some, true, List, [], ◌∷◌, ◌++◌, arith, ltb,
}
use nek.Common.Text.{lit, text_eq}
use nek.Model.{ℤ, pos, negsuc}
use nek.Wav.{WavOps, ok, read_fmt, on_chunk, walk, render, parse_wav_pcm}
use nek.Wav.Chunks.{write_chunk, walk_fuel}
use nek.Wav.File.{wav_file, parse_wav_pcm-wav_file}

abbrev magnitude : ℤ → ℕ
magnitude (pos n) = n
magnitude (negsuc n) = n

-- Floating point as numbers, to run the parser.
abbrev numbers : WavOps
numbers = record {
  ops = record {
    add = λ a b. a + b;
    sub = λ a b. a;
    mul = λ a b. a;
    div = λ a b. a;
    sqrt = λ a. a;
    abs = λ a. a;
    powf = λ a b. a;
    clamp = λ a b c. a;
    ge = λ a b. ltb b a;
    gt = λ a b. ltb b a;
  };
  f32_of = magnitude;
  f64_of = λ n. n;
  f32_of_f64 = λ a. a;
  div64 = λ a b. a / b;
  mul64 = λ a b. a * b;
  sub64 = λ a b. a;
  gt64 = λ a b. ltb b a;
  ceil = λ a. a;
  floor = λ a. a;
  show3 = λ a. [];
}

-- 16-bit mono at 48 kHz.
abbrev mono : List ℕ
mono = 1 ∷ 0 ∷ 1 ∷ 0 ∷ 0x80 ∷ 0xbb ∷ 0 ∷ 0 ∷ 0 ∷ 0x77 ∷ 1 ∷ 0 ∷ 2 ∷ 0 ∷ 16 ∷ 0 ∷ []

abbrev two_samples : List ℕ
two_samples = 5 ∷ 0 ∷ 7 ∷ 0 ∷ []

abbrev one_byte : List ℕ
one_byte = 9 ∷ []

parse_example :
    parse_wav_pcm numbers (wav_file 0 0 0 0 mono (two_samples ∷ one_byte ∷ [])) ≡ ok (5 ∷ 7 ∷ [])
unfolding parse_wav_pcm on_chunk text_eq lit
parse_example = refl

-- An unknown chunk, and one of samples behind it.
abbrev two_chunks : List ℕ
two_chunks = write_chunk b'L' b'I' b'S' b'T' one_byte ++ write_chunk b'd' b'a' b't' b'a' two_samples

walk_fuel_example :
    (is_some (walk 23 two_chunks (none, [])) ≡ true)
    × (walk 23 two_chunks (none, []) ≡ walk 90 two_chunks (none, []))
walk_fuel_example = walk_fuel 23 90 two_chunks (none, []) (omega arith) (omega arith)

parse_wav_pcm-wav_file_example :
    parse_wav_pcm numbers (wav_file 0 0 0 0 mono (two_samples ∷ one_byte ∷ []))
    ≡ render numbers (some (read_fmt mono), two_samples ∷ one_byte ∷ [])
parse_wav_pcm-wav_file_example =
    parse_wav_pcm-wav_file numbers 0 0 0 0 mono (two_samples ∷ one_byte ∷ []) (omega arith)
      (omega arith) (omega arith, (omega arith, tt))
