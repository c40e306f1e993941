-- ===== src/Mixer/Samples.antt =====
-- The output is a stream of samples: how it is cut into calls, and the calls into chunks, does
-- not show.
use nek.Common.{
  ℕ, zero, suc, ◌+◌, ◌-◌, ◌<◌, ◌≤◌, ◌≡◌, refl, sym, ap, ◌∙◌, arith, true, false, List, [], ◌∷◌,
  ◌++◌, take, drop, length, leb, get_or, inl, inr, Bool-cases, if◌then◌else◌, ◌==◌, ==-refl,
}
use Prim.Native.Nat.{min}
use nek.Model.{World, F32, frame_size}
use nek.Mixer.Frame.{MixOps}
use nek.Mixer.Callback.{Mixer, mix_frame, enter_slot, fill}
use nek.Mixer.Length.{HasFrame, enter_slot-HasFrame}

-- The position behind so many samples of one frame.
abbrev pub slot_after : ℕ → ℕ → ℕ
slot_after slot offset = if leb frame_size offset then slot + 1 else slot

abbrev pub offset_after : ℕ → ℕ
offset_after offset = if leb frame_size offset then 0 else offset

-- The output sample by sample: each one is read at its own offset of the frame of its slot.
unfoldable pub play_samples : MixOps → ℕ → ℕ → ℕ → World × Mixer → (World × Mixer) × List F32
unfolding mix_frame
play_samples o zero slot offset s = (s, [])
play_samples o (suc n) slot offset s =
    let v = enter_slot o slot s in
    let (u, out) = play_samples o n (slot_after slot (offset + 1)) (offset_after (offset + 1)) v in
    (u, get_or v.1.mix_buf offset 0 ∷ out)

abbrev pub emit : List F32 → (World × Mixer) × List F32 → (World × Mixer) × List F32
emit xs r = (r.0, xs ++ r.1)

take-drop_step :
    (c offset : ℕ) (buf : List F32)
    → offset < length buf
    → take (suc c) (drop offset buf) ≡ get_or buf offset 0 ∷ take c (drop (suc offset) buf)
take-drop_step c offset [] h = absurd (omega arith)
take-drop_step c zero (x ∷ buf) h = refl
take-drop_step c (suc offset) (x ∷ buf) h = take-drop_step c offset buf (omega arith)

enter_slot_again :
    (o : MixOps) (slot : ℕ) (s : World × Mixer) → (slot == (enter_slot o slot s).1.mix_slot) ≡ true
unfolding mix_frame
enter_slot_again o slot s = elim (Bool-cases (slot == s.1.mix_slot)) [
  | inl e ↦ simp e refl
  | inr e ↦ simp e (==-refl slot)
]

play_samples_step :
    (o : MixOps) (m slot offset : ℕ) (s : World × Mixer)
    → (slot == s.1.mix_slot) ≡ true
    → play_samples o (suc m) slot offset s
      ≡ emit
          (get_or s.1.mix_buf offset 0 ∷ [])
          (play_samples o m (slot_after slot (offset + 1)) (offset_after (offset + 1)) s)
unfolding play_samples
play_samples_step o m slot offset s e = simp e refl

-- A chunk of one frame is what the samples of the frame are one by one.
play_samples_chunk :
    (o : MixOps) (c n m slot offset : ℕ) (s : World × Mixer)
    → (slot == s.1.mix_slot) ≡ true
    → HasFrame s
    → m ≡ suc c + n
    → offset + suc c ≤ frame_size
    → play_samples o m slot offset s
      ≡ emit
          (take (suc c) (drop offset s.1.mix_buf))
          (play_samples o n (slot_after slot (offset + suc c)) (offset_after (offset + suc c)) s)
play_samples_chunk o c n zero slot offset s e f h b = absurd (omega arith)
play_samples_chunk o zero n (suc m) slot offset s e f h b =
    play_samples_step o m slot offset s e
    ∙ ap
        (λ k.
          emit (get_or s.1.mix_buf offset 0 ∷ [])
            (play_samples o k (slot_after slot (offset + 1)) (offset_after (offset + 1)) s))
        (omega arith)
    ∙ ap
        (λ xs.
          emit xs (play_samples o n (slot_after slot (offset + 1)) (offset_after (offset + 1)) s))
        (sym (take-drop_step 0 offset s.1.mix_buf (omega arith)))
play_samples_chunk o (suc c) n (suc m) slot offset s e f h b =
    let rest =
      play_samples o n (slot_after slot (offset + suc (suc c)))
        (offset_after (offset + suc (suc c))) s in
    let next : offset + 1 ≡ suc offset = omega arith in
    play_samples_step o m slot offset s e
    ∙ ap
        (λ k.
          emit (get_or s.1.mix_buf offset 0 ∷ [])
            (play_samples o m (if k then slot + 1 else slot) (if k then 0 else offset + 1) s))
        (early offset c b)
    ∙ ap (emit (get_or s.1.mix_buf offset 0 ∷ [])) (
        play_samples_chunk o c n m slot (offset + 1) s e f (omega arith) (omega arith)
        ∙ ap
            (λ k.
              emit (take (suc c) (drop (offset + 1) s.1.mix_buf))
                (play_samples o n (slot_after slot k) (offset_after k) s))
            (omega arith))
    ∙ ap (λ k. emit (get_or s.1.mix_buf offset 0 ∷ take (suc c) (drop k s.1.mix_buf)) rest) next
    ∙ ap (λ xs. emit xs rest) (sym (take-drop_step (suc c) offset s.1.mix_buf (omega arith)))
  where
    early : (offset c : ℕ) → offset + suc (suc c) ≤ frame_size → leb frame_size (offset + 1) ≡ false
    early offset c b = ground arith

-- To enter a slot twice is to enter it once.
play_samples-enter_slot :
    (o : MixOps) (n slot offset : ℕ) (s : World × Mixer)
    → play_samples o (suc n) slot offset (enter_slot o slot s)
      ≡ play_samples o (suc n) slot offset s
unfolding play_samples
play_samples-enter_slot o n slot offset s =
    play_samples_step o n slot offset (enter_slot o slot s) (enter_slot_again o slot s)

nonzero : (n : ℕ) → (suc n == 0) ≡ false
nonzero n = ground arith

fill_step :
    (o : MixOps) (fuel left slot offset : ℕ) (s : World × Mixer)
    → fill o (suc fuel) slot offset (suc left) s ≡ (
        let v = enter_slot o slot s in
        let k = min (suc left) (frame_size - offset) in
        emit
          (take k (drop offset v.1.mix_buf))
          (fill o fuel (slot_after slot (offset + k)) (offset_after (offset + k)) (suc left - k) v))
unfolding fill
fill_step o fuel left slot offset s = rw (nonzero left) refl

pub fill_samples :
    (o : MixOps) (fuel left slot offset : ℕ) (s : World × Mixer)
    → HasFrame s
    → offset < frame_size
    → left ≤ fuel
    → fill o fuel slot offset left s ≡ play_samples o left slot offset s
unfolding fill play_samples
fill_samples o zero zero slot offset s f b h = refl
fill_samples o zero (suc left) slot offset s f b h = absurd (omega arith)
fill_samples o (suc fuel) zero slot offset s f b h = refl
fill_samples o (suc fuel) (suc left) slot offset s f b h =
    let v = enter_slot o slot s in
    let c = min left (frame_size - offset - 1) in
    let copy : min (suc left) (frame_size - offset) ≡ suc c = omega arith in
    let kept = enter_slot-HasFrame o slot s f in
    fill_step o fuel left slot offset s
    ∙ ap
        (λ k.
          emit (take k (drop offset v.1.mix_buf)) (
            fill o fuel (slot_after slot (offset + k)) (offset_after (offset + k)) (suc left - k)
              v))
        copy
    ∙ ap (emit (take (suc c) (drop offset v.1.mix_buf))) (
        fill_samples o fuel (suc left - suc c) (slot_after slot (offset + suc c))
          (offset_after (offset + suc c)) v kept (within (offset + suc c)) (omega arith))
    ∙ sym (
        play_samples_chunk o c (suc left - suc c) (suc left) slot offset v
          (enter_slot_again o slot s) kept (omega arith) (omega arith))
    ∙ play_samples-enter_slot o left slot offset s
  where
    within : (n : ℕ) → offset_after n < frame_size
    within n = ground arith
