-- ===== src/RemotePath/Laws.antt =====
-- What normalization gives, and what the validity test and the base name make of it.
use mathlib.Core.List.{reverse, reverse-cons}
use nek.Common.{
  ◌≡◌, refl, sym, ap, ◌∙◌, inl, inr, Bool, true, false, not, ◌&&◌, ◌⊎◌, Option, none, some, List,
  [], ◌∷◌, ◌++◌, unwrap_or, All, filter, any, find, Bool-cases, ◌==◌,
}
use nek.Common.Text.{Text, text_eq}
use nek.RemotePath.{
  slash, nonempty, trim, split, join, segments, normalize_remote_path, contains_nul, is_parent,
  valid_remote_path, remote_basename,
}
use nek.RemotePath.Segments.{
  NoSlash, split-NoSlash, filter-All, split-join, filter_idem, any-filter, any-split,
}

-- A segment as the server takes it: some text without a slash.
abbrev pub Segment : Text → Type 0
Segment s = NoSlash s × (nonempty s ≡ true)

-- Behind the leading slash stand the segments, or the empty text of the root.
abbrev pub or_root : List Text → List Text
or_root [] = [] ∷ []
or_root (s ∷ ss) = s ∷ ss

abbrev pub last? : List Text → Option Text
last? [] = none
last? (s ∷ []) = some s
last? (s ∷ t ∷ ss) = last? (t ∷ ss)

filter-Segment : (ss : List Text) → All NoSlash ss → All Segment (filter nonempty ss)
filter-Segment [] a = tt
filter-Segment ([] ∷ ss) a = filter-Segment ss a.1
filter-Segment ((c ∷ s) ∷ ss) a = ((a.0, refl), filter-Segment ss a.1)

pub segments-Segment : (t : Text) → All Segment (segments t)
unfolding segments
segments-Segment t = filter-Segment (split slash t) (split-NoSlash t)

segments-NoSlash : (t : Text) → All NoSlash (segments t)
unfolding segments
segments-NoSlash t = filter-All NoSlash nonempty (split slash t) (split-NoSlash t)

split-rooted : (ss : List Text) → All NoSlash ss → split slash (slash ∷ join ss) ≡ [] ∷ or_root ss
unfolding split join
split-rooted [] h = refl
split-rooted (s ∷ ss) h = ap (◌∷◌ []) (split-join s ss h)

split-normalize :
    (path : Text) → split slash (normalize_remote_path path) ≡ [] ∷ or_root (segments (trim path))
unfolding normalize_remote_path
split-normalize path = split-rooted (segments (trim path)) (segments-NoSlash (trim path))

-- The normalized path is the leading slash, and behind it exactly the non-empty segments of the
-- trimmed path, in order, one slash between two of them (one empty segment if there are none).
pub normalize_shape :
    (path : Text)
    → All Segment (segments (trim path))
      × (split slash (normalize_remote_path path) ≡ [] ∷ or_root (segments (trim path)))
normalize_shape path = (segments-Segment (trim path), split-normalize path)

filter-or_root : (ss : List Text) → filter nonempty (or_root ss) ≡ filter nonempty ss
filter-or_root [] = refl
filter-or_root (s ∷ ss) = refl

pub segments-normalize :
    (path : Text) → segments (normalize_remote_path path) ≡ segments (trim path)
unfolding segments
segments-normalize path =
    ap (filter nonempty) (split-normalize path)
    ∙ filter-or_root (segments (trim path))
    ∙ filter_idem nonempty (split slash (trim path))

normalize_lem : (path : Text) → normalize_remote_path path ≡ slash ∷ join (segments (trim path))
unfolding normalize_remote_path
normalize_lem path = refl

-- Normalizing twice is normalizing once, for a path whose normal form has no white space at its
-- ends.
pub normalize-normalize :
    (path : Text)
    → trim (normalize_remote_path path) ≡ normalize_remote_path path
    → normalize_remote_path (normalize_remote_path path) ≡ normalize_remote_path path
normalize-normalize path h =
    normalize_lem (normalize_remote_path path)
    ∙ ap {B = Text} (λ t. slash ∷ join (segments t)) h
    ∙ ap {B = Text} (λ ss. slash ∷ join ss) (segments-normalize path)
    ∙ sym (normalize_lem path)

any-or_root : (p : Text → Bool) (ss : List Text) → p [] ≡ false → any p (or_root ss) ≡ any p ss
any-or_root p [] h = rw h
any-or_root p (s ∷ ss) h = refl

-- A test that the empty segment fails holds of a segment of the normal form if of one of the path.
any-normalize :
    (p : Text → Bool) (path : Text)
    → p [] ≡ false
    → any p (split slash (normalize_remote_path path)) ≡ any p (split slash (trim path))
unfolding segments
any-normalize p path h =
    ap (any p) (split-normalize path)
    ∙ rw h (any-or_root p (segments (trim path)) h ∙ any-filter p (split slash (trim path)) h)

contains_nul-normalize :
    (path : Text) → contains_nul (normalize_remote_path path) ≡ contains_nul (trim path)
contains_nul-normalize path =
    sym (any-split (λ c. c == 0) (normalize_remote_path path) refl)
    ∙ any-normalize contains_nul path refl
    ∙ any-split (λ c. c == 0) (trim path) refl

is_root-join :
    (ss : List Text) → All Segment ss → (ss ≡ []) ⊎ (text_eq (slash ∷ join ss) (slash ∷ []) ≡ false)
unfolding text_eq join
is_root-join [] h = inl refl
is_root-join ([] ∷ ss) h = absurd (cc h.0.1)
is_root-join ((c ∷ s) ∷ []) h = inr refl
is_root-join ((c ∷ s) ∷ t ∷ ss) h = inr refl

-- The tests behind the test for the bare root.
abbrev is_safe : Text → Bool
is_safe t = not (contains_nul t) && not (any is_parent (split slash t))

is_safe-normalize : (path : Text) → is_safe (normalize_remote_path path) ≡ is_safe (trim path)
unfolding text_eq
is_safe-normalize path = rw (contains_nul-normalize path, any-normalize is_parent path refl)

valid-rooted :
    (t : Text)
    → text_eq (slash ∷ t) (slash ∷ []) ≡ false
    → valid_remote_path (slash ∷ t) ≡ is_safe (slash ∷ t)
unfolding valid_remote_path
valid-rooted t h = rw h

valid-root : valid_remote_path (slash ∷ []) ≡ is_safe (slash ∷ [])
unfolding valid_remote_path text_eq split
valid-root = refl

-- A normalized path is accepted exactly when the trimmed path has no NUL and no segment `..`.
pub valid-normalize :
    (path : Text)
    → valid_remote_path (normalize_remote_path path)
      ≡ (not (contains_nul (trim path)) && not (any is_parent (split slash (trim path))))
valid-normalize path = valid-safe ∙ is_safe-normalize path
  where
    valid-safe :
        valid_remote_path (normalize_remote_path path) ≡ is_safe (normalize_remote_path path)
    valid-safe =
        rw (normalize_lem path)
          (elim (is_root-join (segments (trim path)) (segments-Segment (trim path))) [
            | inl e ↦ rw e (unfold join in valid-root)
            | inr e ↦ valid-rooted (join (segments (trim path))) e
          ])

find-snoc :
    (p : Text → Bool) (xs : List Text) (x : Text)
    → p x ≡ true
    → find p (xs ++ x ∷ []) ≡ some (unwrap_or (find p xs) x)
find-snoc p [] x h = rw h
find-snoc p (y ∷ xs) x h = elim (Bool-cases (p y)) [
  | inl e ↦ rw e
  | inr e ↦ rw e (find-snoc p xs x h)
]

find-snoc_miss :
    (p : Text → Bool) (xs : List Text) (x : Text) → p x ≡ false → find p (xs ++ x ∷ []) ≡ find p xs
find-snoc_miss p [] x h = rw h
find-snoc_miss p (y ∷ xs) x h = rw (find-snoc_miss p xs x h)

last?-cons :
    (s : Text) (ss : List Text) (d : Text) → some (unwrap_or (last? (s ∷ ss)) d) ≡ last? (s ∷ ss)
last?-cons s [] d = refl
last?-cons s (t ∷ ss) d = last?-cons t ss d

find-reverse : (ss : List Text) → All Segment ss → find nonempty (reverse ss) ≡ last? ss
find-reverse [] h = refl
find-reverse (s ∷ []) h = rw (h.0.1)
find-reverse (s ∷ t ∷ ss) h =
    ap (find nonempty) (reverse-cons s (t ∷ ss))
    ∙ find-snoc nonempty (reverse (t ∷ ss)) s h.0.1
    ∙ ap (λ o. some (unwrap_or o s)) (find-reverse (t ∷ ss) h.1)
    ∙ last?-cons t ss s

find-or_root : (ss : List Text) → All Segment ss → find nonempty (reverse (or_root ss)) ≡ last? ss
find-or_root [] h = refl
find-or_root (s ∷ ss) h = find-reverse (s ∷ ss) h

-- The base name of a normalized path is its last segment, and `/` if it has none.
pub remote_basename-normalize :
    (path : Text)
    → remote_basename (normalize_remote_path path)
      ≡ unwrap_or (last? (segments (trim path))) (slash ∷ [])
unfolding remote_basename
remote_basename-normalize path =
    rw (split-normalize path, reverse-cons [] (or_root (segments (trim path))))
      (rw (find-snoc_miss nonempty (reverse (or_root (segments (trim path)))) [] refl)
        (rw (find-or_root (segments (trim path)) (segments-Segment (trim path)))))
