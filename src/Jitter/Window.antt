-- ===== src/Jitter/Window.antt =====
-- What is written can be read.
use mathlib.Core.Path.{subst}
use nek.Common.{
  ℕ, ◌+◌, ◌-◌, ◌%◌, ◌≤◌, ◌<◌, ◌≡◌, ap, ◌∙◌, Bool, true, false, none, some, inl, inr, arith,
  if◌then◌else◌, leb, ◌==◌, Bool-cases, length, get_or-set_self, set, length-set,
}
use nek.Model.{ClientJitterBuffer, Frame, jitter_slots}
use nek.Jitter.{
  u16, u32, base_seq, base_slot, slot_index, write_frame, take_frame, rebase, expected_seq,
  read_index, receive_frame, init_base, is_too_far, unwrap_seq, needs_rebase,
}
use nek.Jitter.Rebase.{length-rebase}

expected_lem :
    (first_slot first_seq g : ℕ)
    → first_seq ≤ g
    → g < u32
    → expected_seq (first_slot + (g - first_seq)) first_slot first_seq ≡ g
unfolding expected_seq
expected_lem first_slot first_seq g h l = ground arith

read_index_lem :
    (first_seq g : ℕ) → first_seq ≤ g → g < u32 → read_index g first_seq ≡ slot_index g first_seq
unfolding read_index
read_index_lem first_seq g h l = omega arith

slot_index-lt : (g first_seq : ℕ) → slot_index g first_seq < jitter_slots
slot_index-lt g first_seq = omega arith

ne_zero : (n : ℕ) → 0 < n → (n == 0) ≡ false
ne_zero n h = ground arith

leb_refl : (n : ℕ) → leb n n ≡ true
leb_refl n = ground arith

-- The frame that a write leaves is the one that the callback takes when its slot plays.
pub take_frame-write_frame :
    (now global_seq : ℕ) (frame : Frame) (b : ClientJitterBuffer)
    → length b.slots ≡ jitter_slots
    → 0 < base_seq b
    → base_seq b ≤ global_seq
    → global_seq < u32
    → (take_frame (base_slot b + (global_seq - base_seq b)) (write_frame now global_seq frame b)).1
      ≡ some frame
unfolding take_frame write_frame
take_frame-write_frame now g frame b hl h0 hb hg =
    rw (expected_lem (base_slot b) (base_seq b) g hb hg, read_index_lem (base_seq b) g hb hg)
      (rw (ne_zero (base_seq b) h0, leb_refl g)
        (get_or-set_self (set b.slots idx none) idx (some frame) none
          (omega (arith, length-set b.slots idx none, slot_index-lt g (base_seq b)))))
  where
    idx : ℕ
    idx = slot_index g (base_seq b)

length-init_base :
    (slot seq : ℕ) (b : ClientJitterBuffer) → length (init_base slot seq b).slots ≡ length b.slots
unfolding init_base
length-init_base slot seq b = elim (Bool-cases (b.base_pair == 0)) [ inl e ↦ rw e | inr e ↦ rw e ]

-- The buffer that a frame is written to: the one that came, or that buffer with a new mapping.
abbrev target : ℕ → ℕ → ClientJitterBuffer → ClientJitterBuffer
target slot g b = if needs_rebase slot g b then rebase slot g b else b

length-target :
    (slot g : ℕ) (b : ClientJitterBuffer) → length (target slot g b).slots ≡ length b.slots
length-target slot g b = elim (Bool-cases (needs_rebase slot g b)) [
  | inl e ↦ rw e (length-rebase slot g b)
  | inr e ↦ rw e
]

written :
    (now slot g : ℕ) (frame : Frame) (b : ClientJitterBuffer)
    → length b.slots ≡ jitter_slots
    → let b' = write_frame now g frame (target slot g b) in
      0 < base_seq b'
      → base_seq b' ≤ b'.write_seq
      → b'.write_seq < u32
      → (take_frame (base_slot b' + (b'.write_seq - base_seq b')) b').1 ≡ some frame
unfolding write_frame
written now slot g frame b hl h0 hb hg =
    take_frame-write_frame now g frame (target slot g b) (length-target slot g b ∙ hl) h0 hb hg

-- A frame that a buffer of 64 slots accepts, with or without a rebase, is the one that the
-- callback takes when the slot of its number plays, if nothing else comes in between, the base is
-- not zero, and the number is not below the base and below 2 ^ 32.
pub receive_frame-take_frame :
    (now slot seq : ℕ) (frame : Frame) (b b' : ClientJitterBuffer)
    → length b.slots ≡ jitter_slots
    → receive_frame now slot seq frame b ≡ (b', true)
    → 0 < base_seq b'
    → base_seq b' ≤ b'.write_seq
    → b'.write_seq < u32
    → (take_frame (base_slot b' + (b'.write_seq - base_seq b')) b').1 ≡ some frame
unfolding receive_frame
receive_frame-take_frame now slot seq frame b b' hl h = elim (Bool-cases far) [
  | inl e ↦ absurd (cc (rw e at h))
  | inr e ↦
      subst Plays (ap (λ r. r.0) (rw e at h))
        (written now slot g frame c (length-init_base slot seq b ∙ hl))
]
  where
    c : ClientJitterBuffer
    c = init_base slot seq b

    g : ℕ
    g = unwrap_seq seq (base_seq c % u16)

    far : Bool
    far = is_too_far c.write_seq g

    Plays : ClientJitterBuffer → Type 0
    Plays d =
        0 < base_seq d
        → base_seq d ≤ d.write_seq
        → d.write_seq < u32
        → (take_frame (base_slot d + (d.write_seq - base_seq d)) d).1 ≡ some frame
