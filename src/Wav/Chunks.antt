-- ===== src/Wav/Chunks.antt =====
-- The walk over the chunks: it finds exactly what was written, and its fuel is enough.
use nek.Common.{
  ℕ, zero, suc, ◌+◌, ◌/◌, ◌%◌, ◌^◌, ◌≤◌, ◌<◌, ◌≡◌, refl, ap, sym, ◌∙◌, true, false, Option, some,
  is_some, List, [], ◌∷◌, ◌++◌, append-nil, append_assoc, inl, inr, arith, length, take, drop,
  length-append, length-drop, replicate, length-replicate, ltb, Bool-cases, All,
}
use nek.Common.Text.{text_eq, lit}
use nek.Wav.{Parsed, ok, err, le, Found, on_chunk, walk}

-- The four bytes of a number below 2 ^ 32.
abbrev pub le32 : ℕ → List ℕ
le32 n = n % 256 ∷ n / 256 % 256 ∷ n / 65536 % 256 ∷ n / 16777216 ∷ []

-- A chunk as it stands in a file: the four bytes of its id, its size, its body and the padding.
abbrev pub write_chunk : ℕ → ℕ → ℕ → ℕ → List ℕ → List ℕ
write_chunk a b c d body =
    a ∷ b ∷ c ∷ d ∷ (le32 (length body) ++ (body ++ replicate (length body % 2) 0))

le-le32 : (n : ℕ) → n < 2 ^ 32 → le (le32 n) ≡ n
le-le32 n h = omega arith

take-append : {A : Type 0} (xs ys : List A) → take (length xs) (xs ++ ys) ≡ xs
take-append [] ys = refl
take-append (x ∷ xs) ys = ap (◌∷◌ x) (take-append xs ys)

drop-append : {A : Type 0} (xs ys : List A) (n : ℕ) → n ≡ length xs → drop n (xs ++ ys) ≡ ys
drop-append [] ys zero h = refl
drop-append [] ys (suc n) h = absurd (omega (arith, h))
drop-append (x ∷ xs) ys zero h = absurd (omega (arith, h))
drop-append (x ∷ xs) ys (suc n) h = drop-append xs ys n (omega (arith, h))

-- What the walk does behind one chunk.
abbrev pub go_on : ℕ → List ℕ → Parsed Found → Option (Parsed Found)
go_on fuel rest (err e) = some (err e)
go_on fuel rest (ok found) = walk fuel rest found

abbrev size_of : List ℕ → ℕ
size_of bytes = le (take 4 (drop 4 bytes))

abbrev behind_chunk : List ℕ → List ℕ
behind_chunk bytes = drop (size_of bytes + size_of bytes % 2) (drop 8 bytes)

one_round :
    (fuel : ℕ) (bytes : List ℕ) (found : Found)
    → ltb (length bytes) 8 ≡ false
    → ltb (length (drop 8 bytes)) (size_of bytes) ≡ false
    → walk (suc fuel) bytes found
      ≡ go_on fuel
          (behind_chunk bytes)
          (on_chunk (take 4 bytes) (take (size_of bytes) (drop 8 bytes)) found)
unfolding walk
one_round fuel bytes found long fits = rw (long, fits)

whole_chunk :
    (fuel size : ℕ) (bytes id chunk rest : List ℕ) (found : Found)
    → ltb (length bytes) 8 ≡ false
    → le (take 4 (drop 4 bytes)) ≡ size
    → ltb (length (drop 8 bytes)) size ≡ false
    → take 4 bytes ≡ id
    → take size (drop 8 bytes) ≡ chunk
    → drop (size + size % 2) (drop 8 bytes) ≡ rest
    → walk (suc fuel) bytes found ≡ go_on fuel rest (on_chunk id chunk found)
whole_chunk fuel size bytes id chunk rest found long sized fits ids taken left =
    one_round fuel bytes found long (rw sized fits)
    ∙ ap
        (λ n.
          go_on fuel (drop (n + n % 2) (drop 8 bytes))
            (on_chunk (take 4 bytes) (take n (drop 8 bytes)) found))
        sized
    ∙ ap (λ r. go_on fuel r (on_chunk (take 4 bytes) (take size (drop 8 bytes)) found)) left
    ∙ ap (λ t. go_on fuel rest (on_chunk t (take size (drop 8 bytes)) found)) ids
    ∙ ap (λ t. go_on fuel rest (on_chunk id t found)) taken

not_short : (n m : ℕ) → m ≤ n → ltb n m ≡ false
not_short n m h = ground arith

length_body : (body pad rest : List ℕ) → length body ≤ length ((body ++ pad) ++ rest)
length_body body pad rest = omega (arith, length-append (body ++ pad) rest, length-append body pad)

-- A chunk that was written, with an id of any four bytes and a body of less than 2 ^ 32, is read
-- whole and as it was, and the walk goes on right behind its padding.
pub walk-write_chunk :
    (fuel a b c d : ℕ) (body rest : List ℕ) (found : Found)
    → length body < 2 ^ 32
    → walk (suc fuel) (write_chunk a b c d body ++ rest) found
      ≡ go_on fuel rest (on_chunk (a ∷ b ∷ c ∷ d ∷ []) body found)
walk-write_chunk fuel a b c d body rest found h =
    whole_chunk fuel (length body) (write_chunk a b c d body ++ rest) (a ∷ b ∷ c ∷ d ∷ []) body rest
      found (not_short (length (write_chunk a b c d body ++ rest)) 8 (omega arith))
      (le-le32 (length body) h)
      (not_short (length ((body ++ pad) ++ rest)) (length body) (length_body body pad rest)) refl
      (ap (take (length body)) (append_assoc body pad rest) ∙ take-append body (pad ++ rest))
      (drop-append (body ++ pad) rest (length body + length body % 2)
        (omega (arith, length-append body pad, length-replicate {A = ℕ} (length body % 2) 0)))
  where
    pad : List ℕ
    pad = replicate (length body % 2) 0

-- The data chunks of a file, written one after the other.
abbrev pub write_data : List (List ℕ) → List ℕ
write_data [] = []
write_data (body ∷ bodies) = write_chunk b'd' b'a' b't' b'a' body ++ write_data bodies

abbrev pub Fits : List ℕ → Type 0
Fits body = length body < 2 ^ 32

gathered :
    (body : List ℕ) (found : Found)
    → on_chunk (b'd' ∷ b'a' ∷ b't' ∷ b'a' ∷ []) body found ≡ ok (found.0, found.1 ++ body ∷ [])
unfolding on_chunk text_eq lit
gathered body found = refl

end_of_file : (fuel : ℕ) (found : Found) → walk (suc fuel) [] found ≡ some (ok found)
unfolding walk
end_of_file fuel found = refl

-- The walk over data chunks that were written, each of less than 2 ^ 32 bytes, finds exactly
-- these, in order, if its fuel is above their number.
pub walk-write_data :
    (fuel : ℕ) (bodies : List (List ℕ)) (found : Found)
    → length bodies < fuel
    → All Fits bodies
    → walk fuel (write_data bodies) found ≡ some (ok (found.0, found.1 ++ bodies))
walk-write_data zero bodies found k h = absurd (omega (arith, k))
walk-write_data (suc fuel) [] found k h =
    end_of_file fuel found ∙ ap (λ cs. some (ok (found.0, cs))) (sym (append-nil found.1))
walk-write_data (suc fuel) (body ∷ bodies) found k h =
    walk-write_chunk fuel b'd' b'a' b't' b'a' body (write_data bodies) found h.0
    ∙ ap (go_on fuel (write_data bodies)) (gathered body found)
    ∙ walk-write_data fuel bodies (found.0, found.1 ++ body ∷ []) (omega (arith, k)) h.1
    ∙ ap (λ cs. some (ok (found.0, cs))) (append_assoc found.1 (body ∷ []) bodies)

shorter :
    (bytes : List ℕ) (n : ℕ)
    → ltb (length bytes) 8 ≡ false
    → length bytes < suc n
    → length (behind_chunk bytes) < n
shorter bytes n e h = omega (
  arith,
  length-drop (size_of bytes + size_of bytes % 2) (drop 8 bytes),
  length-drop 8 bytes,
  long e,
)
  where
    long : ltb (length bytes) 8 ≡ false → 8 ≤ length bytes
    long e = ground arith

-- A walk that is done gives the same on any more fuel.
Settled : ℕ → ℕ → List ℕ → Found → Type 0
Settled fuel more bytes found =
    (is_some (walk fuel bytes found) ≡ true) × (walk fuel bytes found ≡ walk more bytes found)

go_on-Settled :
    (fuel more : ℕ) (rest : List ℕ) (p : Parsed Found)
    → ((found : Found) → Settled fuel more rest found)
    → (is_some (go_on fuel rest p) ≡ true) × (go_on fuel rest p ≡ go_on more rest p)
unfolding Settled
go_on-Settled fuel more rest (err t) h = (refl, refl)
go_on-Settled fuel more rest (ok found) h = h found

walk-Settled :
    (fuel more : ℕ) (bytes : List ℕ) (found : Found)
    → length bytes < fuel
    → length bytes < more
    → Settled fuel more bytes found
unfolding walk Settled
walk-Settled zero more bytes found h k = absurd (omega (arith, h))
walk-Settled (suc fuel) zero bytes found h k = absurd (omega (arith, k))
walk-Settled (suc fuel) (suc more) bytes found h k = elim (Bool-cases (ltb (length bytes) 8)) [
  | inl e ↦ rw e (refl, refl)
  | inr e ↦ elim (Bool-cases (ltb (length (drop 8 bytes)) (size_of bytes))) [
    | inl f ↦ rw (e, f) (refl, refl)
    | inr f ↦
        let next =
          go_on-Settled fuel more (behind_chunk bytes)
            (on_chunk (take 4 bytes) (take (size_of bytes) (drop 8 bytes)) found)
            (λ found'.
              walk-Settled fuel more (behind_chunk bytes) found' (shorter bytes fuel e h)
                (shorter bytes more e k)) in
        (
          ap is_some (one_round fuel bytes found e f) ∙ next.0,
          one_round fuel bytes found e f ∙ next.1 ∙ sym (one_round more bytes found e f),
        )
  ]
]

-- On more fuel than there are bytes the walk comes to its end, an error included, before the fuel
-- runs out, and any two such amounts give the same.
pub walk_fuel :
    (fuel more : ℕ) (bytes : List ℕ) (found : Found)
    → length bytes < fuel
    → length bytes < more
    → (is_some (walk fuel bytes found) ≡ true) × (walk fuel bytes found ≡ walk more bytes found)
unfolding Settled
walk_fuel fuel more bytes found h k = walk-Settled fuel more bytes found h k
