-- ===== src/Calls/Overrides.antt =====
-- Which sample a sound has, behind any calls that set and clear custom ones.
use nek.Common.{
  ℕ, ◌-◌, ◌≡◌, refl, sym, ap, ◌∙◌, arith, Bool, true, false, Option, none, some, List, [], ◌∷◌, inl,
  inr, set, get_or, length, length-set, get_or-set_self, get_or-set_ne, if◌then◌else◌, ◌==◌,
  Bool-cases,
}
use nek.Common.Text.{Text}
use nek.Model.{World, F32, initial_world}
use nek.Wav.{WavOps, Parsed, ok, err, parse_wav_pcm}
use nek.Wav.Builtin.{PeakOps, sfx_builtin, sfx_samples}
use nek.Calls.Sounds.{
  is_kind, install_parsed, install_bytes, ts_set_sfx_sample, ts_clear_sfx_sample,
}

-- A call on a custom sample.
pub data SampleCall : Type 0 where
  set_sample : ℕ → Option (List ℕ) → SampleCall
  clear_sample : ℕ → SampleCall

abbrev sample_call : List (Option (List F32)) → WavOps → SampleCall → World → World
sample_call builtin o (set_sample kind input) w = (ts_set_sfx_sample o kind input w).0
sample_call builtin o (clear_sample kind) w = (ts_clear_sfx_sample builtin kind w).0

unfoldable pub sample_calls : List (Option (List F32)) → WavOps → List SampleCall → World → World
unfolding ts_set_sfx_sample ts_clear_sfx_sample
sample_calls builtin o [] w = w
sample_calls builtin o (c ∷ cs) w = sample_calls builtin o cs (sample_call builtin o c w)

abbrev parsed_sample : Parsed (List F32) → Option (List F32) → Option (List F32)
parsed_sample (ok samples) current = some samples
parsed_sample (err msg) current = current

-- A file takes the place of the current sample if it is a sample.
abbrev replaced : WavOps → Option (List ℕ) → Option (List F32) → Option (List F32)
replaced o none current = current
replaced o (some []) current = current
replaced o (some (b ∷ bs)) current = parsed_sample (parse_wav_pcm o (b ∷ bs)) current

-- What a sound's own calls make of its sample; the calls on other sounds do not count.
unfoldable pub own_sample :
    WavOps → ℕ → Option (List F32) → List SampleCall → Option (List F32) → Option (List F32)
unfolding parse_wav_pcm
own_sample o kind original [] current = current
own_sample o kind original (set_sample k input ∷ cs) current =
    own_sample o kind original cs (if k == kind then replaced o input current else current)
own_sample o kind original (clear_sample k ∷ cs) current =
    own_sample o kind original cs (if k == kind then original else current)

module _ (kind : ℕ) (known : is_kind kind ≡ true) where
  get_or-set_kind :
      (xs : List (Option (List F32))) (k : ℕ) (v : Option (List F32))
      → length xs ≡ 37
      → is_kind k ≡ true
      → get_or (set xs (k - 1) v) (kind - 1) none
        ≡ (if k == kind then v else get_or xs (kind - 1) none)
  get_or-set_kind xs k v n h = elim (Bool-cases (k == kind)) [
    | inl e ↦
        let same : k - 1 ≡ kind - 1 = ground arith in
        rw (e, same) (get_or-set_self xs (kind - 1) v none (ground arith))
    | inr e ↦ rw e (get_or-set_ne xs (k - 1) (kind - 1) v none (λ q. ground arith))
  ]

  -- The calls on an unknown kind are not on this one.
  other_kind : (k : ℕ) → is_kind k ≡ false → (k == kind) ≡ false
  other_kind k h = ground arith

  if_same : {A : Type 0} (b : Bool) (x : A) → (if b then x else x) ≡ x
  if_same true x = refl
  if_same false x = refl

  own-install_bytes :
      (o : WavOps) (k : ℕ) (input : Option (List ℕ)) (w : World)
      → length w.sfx_samples ≡ 37
      → is_kind k ≡ true
      → get_or (install_bytes o k input w).0.sfx_samples (kind - 1) none ≡ (
          if k == kind
          then replaced o input (get_or w.sfx_samples (kind - 1) none)
          else get_or w.sfx_samples (kind - 1) none)
  own-install_bytes o k none w n h = sym (if_same (k == kind) _)
  own-install_bytes o k (some []) w n h = sym (if_same (k == kind) _)
  own-install_bytes o k (some (b ∷ bs)) w n h = by_parse (parse_wav_pcm o (b ∷ bs))
    where
      by_parse :
          (p : Parsed (List F32))
          → get_or (install_parsed k p w).0.sfx_samples (kind - 1) none ≡ (
              if k == kind
              then parsed_sample p (get_or w.sfx_samples (kind - 1) none)
              else get_or w.sfx_samples (kind - 1) none)
      by_parse (ok samples) = get_or-set_kind w.sfx_samples k (some samples) n h
      by_parse (err msg) = sym (if_same (k == kind) _)

  length-install_bytes :
      (o : WavOps) (k : ℕ) (input : Option (List ℕ)) (w : World)
      → length (install_bytes o k input w).0.sfx_samples ≡ length w.sfx_samples
  length-install_bytes o k none w = refl
  length-install_bytes o k (some []) w = refl
  length-install_bytes o k (some (b ∷ bs)) w = by_parse (parse_wav_pcm o (b ∷ bs))
    where
      by_parse :
          (p : Parsed (List F32))
          → length (install_parsed k p w).0.sfx_samples ≡ length w.sfx_samples
      by_parse (ok samples) = length-set w.sfx_samples (k - 1) (some samples)
      by_parse (err msg) = refl

  length-ts_set_sfx_sample :
      (o : WavOps) (k : ℕ) (input : Option (List ℕ)) (w : World)
      → length (ts_set_sfx_sample o k input w).0.sfx_samples ≡ length w.sfx_samples
  unfolding ts_set_sfx_sample
  length-ts_set_sfx_sample o k input w = elim (Bool-cases (is_kind k)) [
    | inl e ↦ simp e (length-install_bytes o k input w)
    | inr e ↦ simp e
  ]

  length-ts_clear_sfx_sample :
      (builtin : List (Option (List F32))) (k : ℕ) (w : World)
      → length (ts_clear_sfx_sample builtin k w).0.sfx_samples ≡ length w.sfx_samples
  unfolding ts_clear_sfx_sample
  length-ts_clear_sfx_sample builtin k w = elim (Bool-cases (is_kind k)) [
    | inl e ↦ simp e (length-set w.sfx_samples (k - 1) (get_or builtin (k - 1) none))
    | inr e ↦ simp e
  ]

  own-ts_set_sfx_sample :
      (o : WavOps) (k : ℕ) (input : Option (List ℕ)) (w : World)
      → length w.sfx_samples ≡ 37
      → get_or (ts_set_sfx_sample o k input w).0.sfx_samples (kind - 1) none ≡ (
          if k == kind
          then replaced o input (get_or w.sfx_samples (kind - 1) none)
          else get_or w.sfx_samples (kind - 1) none)
  unfolding ts_set_sfx_sample
  own-ts_set_sfx_sample o k input w n = elim (Bool-cases (is_kind k)) [
    | inl e ↦ simp e (own-install_bytes o k input w n e)
    | inr e ↦ simp (e, other_kind k e)
  ]

  own-ts_clear_sfx_sample :
      (builtin : List (Option (List F32))) (k : ℕ) (w : World)
      → length w.sfx_samples ≡ 37
      → get_or (ts_clear_sfx_sample builtin k w).0.sfx_samples (kind - 1) none ≡ (
          if k == kind
          then get_or builtin (kind - 1) none
          else get_or w.sfx_samples (kind - 1) none)
  unfolding ts_clear_sfx_sample
  own-ts_clear_sfx_sample builtin k w n = elim (Bool-cases (is_kind k)) [
    | inl e ↦
        simp e (
          get_or-set_kind w.sfx_samples k (get_or builtin (k - 1) none) n e
          ∙ same_entry builtin k w)
    | inr e ↦ simp (e, other_kind k e)
  ]
    where
      same_entry :
          (builtin : List (Option (List F32))) (k : ℕ) (w : World)
          → (if k == kind
              then get_or builtin (k - 1) none
              else get_or w.sfx_samples (kind - 1) none)
            ≡ (if k == kind
                then get_or builtin (kind - 1) none
                else get_or w.sfx_samples (kind - 1) none)
      same_entry builtin k w = elim (Bool-cases (k == kind)) [
        | inl e ↦ let same : k - 1 ≡ kind - 1 = ground arith in rw (e, same)
        | inr e ↦ rw e
      ]

  own-sample_calls :
      (builtin : List (Option (List F32))) (o : WavOps) (cs : List SampleCall) (w : World)
      → length w.sfx_samples ≡ 37
      → get_or (sample_calls builtin o cs w).sfx_samples (kind - 1) none
        ≡ own_sample o kind
            (get_or builtin (kind - 1) none)
            cs
            (get_or w.sfx_samples (kind - 1) none)
  unfolding sample_calls own_sample
  own-sample_calls builtin o [] w n = refl
  own-sample_calls builtin o (set_sample k input ∷ cs) w n =
      own-sample_calls builtin o cs (ts_set_sfx_sample o k input w).0
        (length-ts_set_sfx_sample o k input w ∙ n)
      ∙ ap (own_sample o kind (get_or builtin (kind - 1) none) cs)
          (own-ts_set_sfx_sample o k input w n)
  own-sample_calls builtin o (clear_sample k ∷ cs) w n =
      own-sample_calls builtin o cs (ts_clear_sfx_sample builtin k w).0
        (length-ts_clear_sfx_sample builtin k w ∙ n)
      ∙ ap (own_sample o kind (get_or builtin (kind - 1) none) cs)
          (own-ts_clear_sfx_sample builtin k w n)

-- Behind any calls that set and clear custom samples, from the start on, the sample of a known
-- sound is what that sound's own calls make of its built-in one: an accepted file takes the place
-- of what was there, a refused one leaves it, a clear brings the built-in sample back, and the
-- calls on other sounds, known or not, do not matter.
pub sample_calls-own_sample :
    (o : WavOps) (p : PeakOps) (files : Text → List ℕ) (cs : List SampleCall) (kind : ℕ)
    → is_kind kind ≡ true
    → let builtin = sfx_builtin o p files in
      let original = get_or builtin (kind - 1) none in
      get_or
        (sample_calls builtin o cs (initial_world (sfx_samples builtin))).sfx_samples
        (kind - 1)
        none
      ≡ own_sample o kind original cs original
unfolding initial_world sfx_builtin
sample_calls-own_sample o p files cs kind known =
    let builtin = sfx_builtin o p files in
    own-sample_calls kind known builtin o cs (initial_world (sfx_samples builtin)) refl
