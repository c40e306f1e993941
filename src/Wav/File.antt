-- ===== src/Wav/File.antt =====
-- A whole file is read as it was written.
use nek.Common.{
  ℕ, suc, ◌+◌, ◌≤◌, ◌<◌, ◌≡◌, ap, ◌∙◌, true, none, some, List, [], ◌∷◌, ◌++◌, arith, length, All,
}
use nek.Common.Text.{lit, text_eq}
use nek.Wav.{WavOps, ok, read_fmt, on_chunk, walk, is_riff, render, render_found, parse_wav_pcm}
use nek.Wav.Chunks.{
  Fits, write_chunk, write_data, go_on, walk-write_chunk, walk-write_data, walk_fuel,
}

-- The chunks of a file, and the file: any four bytes stand for its size.
abbrev pub body_of : List ℕ → List (List ℕ) → List ℕ
body_of fmt bodies = write_chunk b'f' b'm' b't' b' ' fmt ++ write_data bodies

abbrev pub wav_file : ℕ → ℕ → ℕ → ℕ → List ℕ → List (List ℕ) → List ℕ
wav_file p q r s fmt bodies =
    b'R' ∷ b'I' ∷ b'F' ∷ b'F' ∷ p ∷ q ∷ r ∷ s ∷ b'W' ∷ b'A' ∷ b'V' ∷ b'E' ∷ body_of fmt bodies

formatted :
    (fmt : List ℕ)
    → 16 ≤ length fmt
    → on_chunk (b'f' ∷ b'm' ∷ b't' ∷ b' ' ∷ []) fmt (none, []) ≡ ok (some (read_fmt fmt), [])
unfolding on_chunk text_eq lit
formatted fmt h = ground arith

read_back :
    (fuel : ℕ) (fmt : List ℕ) (bodies : List (List ℕ))
    → 16 ≤ length fmt
    → Fits fmt
    → length bodies < fuel
    → All Fits bodies
    → walk (suc fuel) (body_of fmt bodies) (none, []) ≡ some (ok (some (read_fmt fmt), bodies))
read_back fuel fmt bodies h f k a =
    walk-write_chunk fuel b'f' b'm' b't' b' ' fmt (write_data bodies) (none, []) f
    ∙ ap (go_on fuel (write_data bodies)) (formatted fmt h)
    ∙ walk-write_data fuel bodies (some (read_fmt fmt), []) k a

riff :
    (p q r s : ℕ) (fmt : List ℕ) (bodies : List (List ℕ))
    → is_riff (wav_file p q r s fmt bodies) ≡ true
unfolding text_eq lit
riff p q r s fmt bodies = ground arith

-- A file with one format chunk of at least 16 bytes and any data chunks behind it, each of less
-- than 2 ^ 32 bytes, is parsed by exactly that format and exactly these chunks, in order.
pub parse_wav_pcm-wav_file :
    (o : WavOps) (p q r s : ℕ) (fmt : List ℕ) (bodies : List (List ℕ))
    → 16 ≤ length fmt
    → Fits fmt
    → All Fits bodies
    → parse_wav_pcm o (wav_file p q r s fmt bodies) ≡ render o (some (read_fmt fmt), bodies)
unfolding parse_wav_pcm
parse_wav_pcm-wav_file o p q r s fmt bodies h f a =
    rw (riff p q r s fmt bodies)
      (ap (render_found o) (enough ∙ read_back fuel fmt bodies h f (omega arith) a))
  where
    file : List ℕ
    file = wav_file p q r s fmt bodies

    fuel : ℕ
    fuel = length (body_of fmt bodies) + length bodies + 1

    enough :
        walk (length file) (body_of fmt bodies) (none, [])
        ≡ walk (suc fuel) (body_of fmt bodies) (none, [])
    enough =
        (walk_fuel (length file) (suc fuel) (body_of fmt bodies) (none, []) (omega arith)
          (omega arith)).1
