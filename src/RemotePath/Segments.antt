-- ===== src/RemotePath/Segments.antt =====
-- Splitting at `/` undoes joining with `/`, and what a test on characters says of the segments.
use nek.Common.{
  ℕ, ◌≡◌, refl, ap, ◌∙◌, inl, inr, Bool, true, false, List, [], ◌∷◌, ◌++◌, arith, ◌==◌,
  if◌then◌else◌, All, filter, any, Bool-cases,
}
use nek.Common.Text.{Text}
use nek.RemotePath.{slash, split, join, cons_head, nonempty}

-- The text has no slash.
abbrev pub NoSlash : Text → Type 0
NoSlash = All (λ c. (c == slash) ≡ false)

All-cons_head :
    (c : ℕ) (ss : List Text) → (c == slash) ≡ false → All NoSlash ss → All NoSlash (cons_head c ss)
All-cons_head c [] h a = ((h, tt), tt)
All-cons_head c (s ∷ ss) h a = ((h, a.0), a.1)

pub split-NoSlash : (t : Text) → All NoSlash (split slash t)
unfolding split
split-NoSlash [] = (tt, tt)
split-NoSlash (c ∷ t) = elim (Bool-cases (c == slash)) [
  | inl e ↦ rw e (tt, split-NoSlash t)
  | inr e ↦ rw e (All-cons_head c (split slash t) e (split-NoSlash t))
]

pub filter-All {κ} :
    (P : Text → Type κ) (p : Text → Bool) (ss : List Text) → All P ss → All P (filter p ss)
filter-All P p [] a = tt
filter-All P p (s ∷ ss) a = elim (Bool-cases (p s)) [
  | inl e ↦ rw e (a.0, filter-All P p ss a.1)
  | inr e ↦ rw e (filter-All P p ss a.1)
]

pub split-NoSlash_eq : (s : Text) → NoSlash s → split slash s ≡ s ∷ []
unfolding split
split-NoSlash_eq [] h = refl
split-NoSlash_eq (c ∷ s) h = rw (h.0, split-NoSlash_eq s h.1)

pub split-append : (s t : Text) → NoSlash s → split slash (s ++ slash ∷ t) ≡ s ∷ split slash t
unfolding split
split-append [] t h = refl
split-append (c ∷ s) t h = rw (h.0, split-append s t h.1)

-- Splitting a join of slash-free segments gives the segments back.
pub split-join :
    (s : Text) (ss : List Text) → All NoSlash (s ∷ ss) → split slash (join (s ∷ ss)) ≡ s ∷ ss
unfolding join
split-join s [] h = split-NoSlash_eq s h.0
split-join s (t ∷ ss) h = split-append s (join (t ∷ ss)) h.0 ∙ ap (◌∷◌ s) (split-join t ss h.1)

pub filter_idem : (p : Text → Bool) (ss : List Text) → filter p (filter p ss) ≡ filter p ss
filter_idem p [] = refl
filter_idem p (s ∷ ss) = ground (arith, filter_idem p ss)

-- A test that the empty segment fails sees the same segments before and after filtering.
pub any-filter :
    (p : Text → Bool) (ss : List Text) → p [] ≡ false → any p (filter nonempty ss) ≡ any p ss
any-filter p [] h = refl
any-filter p ([] ∷ ss) h = rw h (any-filter p ss h)
any-filter p ((c ∷ s) ∷ ss) h = rw (any-filter p ss h)

any-cons_head :
    (q : ℕ → Bool) (c : ℕ) (ss : List Text)
    → any (any q) (cons_head c ss) ≡ (if q c then true else any (any q) ss)
any-cons_head q c [] = ground arith
any-cons_head q c (s ∷ ss) = ground arith

-- A test that the slash fails holds of a character of the text if of one in some segment.
pub any-split : (q : ℕ → Bool) (t : Text) → q slash ≡ false → any (any q) (split slash t) ≡ any q t
unfolding split
any-split q [] h = refl
any-split q (c ∷ t) h = elim (Bool-cases (c == slash)) [
  | inl e ↦ let same : c ≡ slash = ground arith in rw (same, h) (any-split q t h)
  | inr e ↦ rw (e, any-cons_head q c (split slash t), any-split q t h)
]
