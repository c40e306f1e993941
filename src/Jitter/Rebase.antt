-- ===== src/Jitter/Rebase.antt =====
-- A rebase loses no frame buffer.
use nek.Common.{
  ℕ, zero, suc, ◌+◌, ◌%◌, ◌≤◌, ◌<◌, ◌≡◌, refl, ap, ◌∙◌, Option, none, some, List, [], ◌∷◌, arith,
  length, get_or, set, length-set, length-append,
}
use nek.Model.{ClientJitterBuffer, Frame, jitter_slots}
use nek.Jitter.{u32, wrapping_sub, base_seq, move_frame, move_frames, rebase, push_frame}

length-move_frame :
    (i dist : ℕ) (o : Option Frame) (slots : List (Option Frame)) (pool : List Frame)
    → length (move_frame i dist o slots pool).0 ≡ length slots
length-move_frame i dist none slots pool = refl
length-move_frame i dist (some f) slots pool =
    ground (arith, length-set slots i none, length-set (set slots i none) dist (some f))

length-move_frames :
    (old new rounds i : ℕ) (slots : List (Option Frame)) (pool : List Frame)
    → length (move_frames old new rounds i slots pool).0 ≡ length slots
unfolding move_frames
length-move_frames old new zero i slots pool = refl
length-move_frames old new (suc rounds) i slots pool =
    let dist = wrapping_sub u32 ((old + i) % u32) new in
    let (slots', pool') = move_frame i dist (get_or slots i none) slots pool in
    length-move_frames old new rounds (i + 1) slots' pool'
    ∙ length-move_frame i dist (get_or slots i none) slots pool

pub length-rebase :
    (slot g : ℕ) (b : ClientJitterBuffer) → length (rebase slot g b).slots ≡ length b.slots
unfolding rebase
length-rebase slot g b = length-move_frames (base_seq b) g jitter_slots 0 b.slots b.frame_pool

-- How many slots hold a frame.
abbrev pub held : List (Option Frame) → ℕ
held [] = 0
held (none ∷ slots) = held slots
held (some f ∷ slots) = suc (held slots)

abbrev one_if : Option Frame → ℕ
one_if none = 0
one_if (some f) = 1

held-set :
    (slots : List (Option Frame)) (i : ℕ) (o : Option Frame)
    → i < length slots
    → held (set slots i o) + one_if (get_or slots i none) ≡ held slots + one_if o
held-set [] i o h = elim h [ ]
held-set (none ∷ slots) zero none h = omega arith
held-set (none ∷ slots) zero (some f) h = omega arith
held-set (some f ∷ slots) zero none h = omega arith
held-set (some f ∷ slots) zero (some g) h = omega arith
held-set (none ∷ slots) (suc i) o h = held-set slots i o (omega arith)
held-set (some f ∷ slots) (suc i) o h = omega (arith, held-set slots i o (omega arith))

length-push_frame :
    (o : Option Frame) (pool : List Frame) → length (push_frame o pool) ≡ length pool + one_if o
length-push_frame none pool = omega arith
length-push_frame (some f) pool = omega (arith, length-append pool (f ∷ []))

held-move_frame :
    (i dist : ℕ) (o : Option Frame) (slots : List (Option Frame)) (pool : List Frame)
    → get_or slots i none ≡ o
    → i < length slots
    → length slots ≡ jitter_slots
    → held (move_frame i dist o slots pool).0 + length (move_frame i dist o slots pool).1
      ≡ held slots + length pool
held-move_frame i dist none slots pool e hi hl = refl
held-move_frame i dist (some f) slots pool e hi hl =
    let cleared = set slots i none in
    ground (
      arith,
      held-set slots i none hi,
      ap one_if e,
      length-set slots i none,
      held-set cleared dist (some f),
      length-push_frame (get_or cleared dist none) pool,
      length-append pool (f ∷ []),
    )

held-move_frames :
    (old new rounds i : ℕ) (slots : List (Option Frame)) (pool : List Frame)
    → i + rounds ≤ length slots
    → length slots ≡ jitter_slots
    → let (slots', pool') = move_frames old new rounds i slots pool in
      held slots' + length pool' ≡ held slots + length pool
unfolding move_frames
held-move_frames old new zero i slots pool h hl = refl
held-move_frames old new (suc rounds) i slots pool h hl =
    let dist = wrapping_sub u32 ((old + i) % u32) new in
    let o = get_or slots i none in
    let (slots', pool') = move_frame i dist o slots pool in
    let same = length-move_frame i dist o slots pool in
    held-move_frames old new rounds (i + 1) slots' pool' (omega arith) (same ∙ hl)
    ∙ held-move_frame i dist o slots pool refl (omega arith) hl

-- A rebase of a buffer of 64 slots moves frame buffers between the ring and the pool: together
-- they hold as many as before.
pub held-rebase :
    (slot g : ℕ) (b : ClientJitterBuffer)
    → length b.slots ≡ jitter_slots
    → held (rebase slot g b).slots + length (rebase slot g b).frame_pool
      ≡ held b.slots + length b.frame_pool
unfolding rebase
held-rebase slot g b hl =
    held-move_frames (base_seq b) g jitter_slots 0 b.slots b.frame_pool (omega arith) hl
