-- ===== src/Calls/Sounds.antt =====
-- The calls on the samples of the sounds (`ts_set_sfx_sample`, `ts_clear_sfx_sample`,
-- `ts_play_sfx` in native/src/api.rs).
use nek.Common.{
  ℕ, ◌-◌, Bool, ◌&&◌, ◌||◌, Option, none, some, List, is_empty, get_or, set, leb, if◌then◌else◌,
}
use nek.Common.Text.{lit, contains}
use nek.Model.{World, F32}
use nek.Sound.{restart_output_stream, push_sfx}
use nek.Wav.{WavOps, Parsed, ok, err, parse_wav_pcm}

abbrev pub is_kind : ℕ → Bool
is_kind kind = leb 1 kind && leb kind 37

abbrev pub install : ℕ → Option (List F32) → World → World
install kind sample w = record w { sfx_samples = set w.sfx_samples (kind - 1) sample }

abbrev pub install_parsed : ℕ → Parsed (List F32) → World → World × ℕ
install_parsed kind (ok samples) w = (install kind (some samples) w, 0)
install_parsed kind (err msg) w =
    (w, if contains msg (lit "too long") || contains msg (lit "no audio data") then 3 else 2)

abbrev pub install_bytes : WavOps → ℕ → Option (List ℕ) → World → World × ℕ
install_bytes o kind none w = (w, 3)
install_bytes o kind (some bytes) w =
    if is_empty bytes then (w, 3) else install_parsed kind (parse_wav_pcm o bytes) w

-- `input` (`data`) is nothing for a null pointer.
unfoldable pub ts_set_sfx_sample : WavOps → ℕ → Option (List ℕ) → World → World × ℕ
unfolding parse_wav_pcm
ts_set_sfx_sample o kind input w = if is_kind kind then install_bytes o kind input w else (w, 1)

-- `builtin` are the samples that the library was built with.
unfoldable pub ts_clear_sfx_sample : List (Option (List F32)) → ℕ → World → World × ℕ
ts_clear_sfx_sample builtin kind w =
    if is_kind kind then (install kind (get_or builtin (kind - 1) none) w, 0) else (w, 1)

unfoldable pub ts_play_sfx : Bool → ℕ → World → World × ℕ
unfolding restart_output_stream push_sfx
ts_play_sfx started kind w =
    if is_kind kind
    then (push_sfx kind (if w.audio_stream then w else restart_output_stream started w), 0)
    else (w, 1)
