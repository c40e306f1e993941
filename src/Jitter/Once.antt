-- ===== src/Jitter/Once.antt =====
-- No frame is played twice.
use nek.Common.{
  ℕ, zero, suc, ◌≡◌, refl, ap, ◌∙◌, Bool, true, false, Option, none, List, [], ◌∷◌, inl, inr,
  Bool-cases, get_or, set, leb, ◌==◌,
}
use nek.Model.{ClientJitterBuffer, Frame}
use nek.Jitter.{base_seq, base_slot, expected_seq, read_index, take_at, take_frame}

get_or-set-none : (slots : List (Option Frame)) (i : ℕ) → get_or (set slots i none) i none ≡ none
get_or-set-none [] i = refl
get_or-set-none (o ∷ slots) zero = refl
get_or-set-none (o ∷ slots) (suc i) = get_or-set-none slots i

-- The index of the ring that the callback reads at a slot.
abbrev index_at : ℕ → ClientJitterBuffer → ℕ
index_at slot b = read_index (expected_seq slot (base_slot b) (base_seq b)) (base_seq b)

abbrev is_written : ℕ → ClientJitterBuffer → Bool
is_written slot b = leb (expected_seq slot (base_slot b) (base_seq b)) b.write_seq

take_frame_unset :
    (slot : ℕ) (b : ClientJitterBuffer) → (base_seq b == 0) ≡ true → take_frame slot b ≡ (b, none)
unfolding take_frame
take_frame_unset slot b z = simp z

take_frame_early :
    (slot : ℕ) (b : ClientJitterBuffer)
    → (base_seq b == 0) ≡ false
    → is_written slot b ≡ false
    → take_frame slot b ≡ (b, none)
unfolding take_frame
take_frame_early slot b z l = simp (z, l)

take_frame_written :
    (slot : ℕ) (b : ClientJitterBuffer)
    → (base_seq b == 0) ≡ false
    → is_written slot b ≡ true
    → take_frame slot b ≡ take_at (index_at slot b) b
unfolding take_frame
take_frame_written slot b z l = simp (z, l)

again :
    (slot : ℕ) (b : ClientJitterBuffer) {r : ClientJitterBuffer × Option Frame}
    → take_frame slot b ≡ r
    → (take_frame slot (take_frame slot b).0).1 ≡ (take_frame slot r.0).1
again slot b e = ap (λ r. (take_frame slot r.0).1) e

-- Behind the taking of a frame, whether one was there or not, the same slot gives none.
pub take_frame_once :
    (slot : ℕ) (b : ClientJitterBuffer) → (take_frame slot (take_frame slot b).0).1 ≡ none
take_frame_once slot b = elim (Bool-cases (base_seq b == 0)) [
  | inl z ↦ again slot b (take_frame_unset slot b z) ∙ ap (λ r. r.1) (take_frame_unset slot b z)
  | inr z ↦ elim (Bool-cases (is_written slot b)) [
    | inl l ↦
        again slot b (take_frame_written slot b z l)
        ∙ ap (λ r. r.1) (take_frame_written slot (take_at (index_at slot b) b).0 z l)
        ∙ get_or-set-none b.slots (index_at slot b)
    | inr l ↦
        again slot b (take_frame_early slot b z l) ∙ ap (λ r. r.1) (take_frame_early slot b z l)
  ]
]
