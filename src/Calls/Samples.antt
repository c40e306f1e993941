-- ===== src/Calls/Samples.antt =====
-- What a custom sample changes, and what a refused one leaves.
use nek.Common.{
  ℕ, zero, suc, ◌-◌, ◌≡◌, ◌≢◌, refl, ap, Bool, true, false, Option, none, some, List, [], ◌∷◌, ◌++◌,
  inl, inr, set, get_or, if◌then◌else◌, Bool-cases,
}
use nek.Model.{World, F32}
use nek.Wav.{WavOps, Parsed, ok, err, parse_wav_pcm}
use nek.Calls.Sounds.{
  is_kind, install_parsed, install_bytes, ts_set_sfx_sample, ts_clear_sfx_sample, ts_play_sfx,
}

parsed_refused :
    (kind : ℕ) (p : Parsed (List F32)) (w : World)
    → (install_parsed kind p w).1 ≢ 0
    → (install_parsed kind p w).0 ≡ w
parsed_refused kind (ok samples) w h = absurd (h refl)
parsed_refused kind (err msg) w h = refl

bytes_refused :
    (o : WavOps) (kind : ℕ) (input : Option (List ℕ)) (w : World)
    → (install_bytes o kind input w).1 ≢ 0
    → (install_bytes o kind input w).0 ≡ w
bytes_refused o kind none w h = refl
bytes_refused o kind (some []) w h = refl
bytes_refused o kind (some (b ∷ bs)) w h = parsed_refused kind (parse_wav_pcm o (b ∷ bs)) w h

-- A sample that is refused, for its kind, its length or its format, changes nothing.
pub ts_set_sfx_sample_refused :
    (o : WavOps) (kind : ℕ) (input : Option (List ℕ)) (w : World)
    → (ts_set_sfx_sample o kind input w).1 ≢ 0
    → (ts_set_sfx_sample o kind input w).0 ≡ w
unfolding ts_set_sfx_sample
ts_set_sfx_sample_refused o kind input w = on_kind (is_kind kind)
  where
    on_kind :
        (b : Bool)
        → (if b then install_bytes o kind input w else (w, 1)).1 ≢ 0
        → (if b then install_bytes o kind input w else (w, 1)).0 ≡ w
    on_kind true h = bytes_refused o kind input w h
    on_kind false h = refl

set-set :
    (xs : List (Option (List F32))) (i : ℕ) (u v : Option (List F32))
    → set (set xs i u) i v ≡ set xs i v
set-set [] i u v = refl
set-set (x ∷ xs) zero u v = refl
set-set (x ∷ xs) (suc i) u v = ap (◌∷◌ x) (set-set xs i u v)

abbrev restored : List (Option (List F32)) → ℕ → World → List (Option (List F32))
restored builtin kind w = set w.sfx_samples (kind - 1) (get_or builtin (kind - 1) none)

parsed_restored :
    (builtin : List (Option (List F32))) (kind : ℕ) (p : Parsed (List F32)) (w : World)
    → restored builtin kind (install_parsed kind p w).0 ≡ restored builtin kind w
parsed_restored builtin kind (ok samples) w =
    set-set w.sfx_samples (kind - 1) (some samples) (get_or builtin (kind - 1) none)
parsed_restored builtin kind (err msg) w = refl

bytes_restored :
    (builtin : List (Option (List F32))) (o : WavOps) (kind : ℕ) (input : Option (List ℕ))
    (w : World)
    → restored builtin kind (install_bytes o kind input w).0 ≡ restored builtin kind w
bytes_restored builtin o kind none w = refl
bytes_restored builtin o kind (some []) w = refl
bytes_restored builtin o kind (some (b ∷ bs)) w =
    parsed_restored builtin kind (parse_wav_pcm o (b ∷ bs)) w

-- Clearing a sample forgets what was set before it, whatever that was.
pub ts_clear_sfx_sample-ts_set_sfx_sample :
    (builtin : List (Option (List F32))) (o : WavOps) (kind : ℕ) (input : Option (List ℕ))
    (w : World)
    → (ts_clear_sfx_sample builtin kind (ts_set_sfx_sample o kind input w).0).0.sfx_samples
      ≡ (ts_clear_sfx_sample builtin kind w).0.sfx_samples
unfolding ts_set_sfx_sample ts_clear_sfx_sample
ts_clear_sfx_sample-ts_set_sfx_sample builtin o kind input w = elim (Bool-cases (is_kind kind)) [
  | inl e ↦ simp e (bytes_restored builtin o kind input w)
  | inr e ↦ simp e
]

-- A preview of a sound is the last thing in the queue, also where the stream had to be started and
-- the queue was cleared for that; an unknown kind is refused and queues nothing.
pub sfx_queue-ts_play_sfx :
    (started : Bool) (kind : ℕ) (w : World)
    → (ts_play_sfx started kind w).0.sfx_queue ≡ (
        if is_kind kind
        then (if w.audio_stream then w.sfx_queue else []) ++ kind ∷ []
        else w.sfx_queue)
unfolding ts_play_sfx
sfx_queue-ts_play_sfx started kind w = elim (Bool-cases (is_kind kind)) [
  | inl e ↦ elim (Bool-cases w.audio_stream) [ inl s ↦ simp (e, s) | inr s ↦ simp (e, s) ]
  | inr e ↦ simp e
]
