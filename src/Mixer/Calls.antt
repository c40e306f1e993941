-- ===== src/Mixer/Calls.antt =====
-- A call of the callback plays the samples that are due, and the next call goes on behind them.
use nek.Common.{
  ℕ, zero, suc, ◌+◌, ◌/◌, ◌%◌, ◌^◌, ◌<◌, ◌≡◌, refl, sym, ap, ◌∙◌, arith, List, [], ◌∷◌, ◌++◌,
  get_or, inl, inr, Bool-cases, ◌==◌,
}
use mathlib.Core.Path.{subst}
use nek.Model.{World, F32, frame_size}
use nek.Mixer.Frame.{MixOps}
use nek.Mixer.Callback.{Mixer, mix_frame, enter_slot, audio_callback}
use nek.Mixer.Length.{HasFrame, enter_slot-HasFrame}
use nek.Mixer.Samples.{play_samples, fill_samples, slot_after, offset_after, emit}

-- The samples from a moment on; a moment is a number of samples since the stream began.
unfoldable pub play_from : MixOps → ℕ → ℕ → World × Mixer → (World × Mixer) × List F32
unfolding play_samples
play_from o n t s = play_samples o n (t / frame_size) (t % frame_size) s

slot_next : (t : ℕ) → slot_after (t / frame_size) (t % frame_size + 1) ≡ (t + 1) / frame_size
slot_next t = ground arith

offset_next : (t : ℕ) → offset_after (t % frame_size + 1) ≡ (t + 1) % frame_size
offset_next t = ground arith

play_from_step :
    (o : MixOps) (n t : ℕ) (s : World × Mixer)
    → play_from o (suc n) t s ≡ (
        let v = enter_slot o (t / frame_size) s in
        emit (get_or v.1.mix_buf (t % frame_size) 0 ∷ []) (play_from o n (t + 1) v))
unfolding play_from play_samples
play_from_step o n t s =
    let v = enter_slot o (t / frame_size) s in
    ap
      (λ k.
        emit (get_or v.1.mix_buf (t % frame_size) 0 ∷ [])
          (play_samples o n k (offset_after (t % frame_size + 1)) v))
      (slot_next t)
    ∙ ap
        (λ k.
          emit (get_or v.1.mix_buf (t % frame_size) 0 ∷ [])
            (play_samples o n ((t + 1) / frame_size) k v))
        (offset_next t)

-- To play on is to play from the moment that was reached.
play_from_append :
    (o : MixOps) (a b m t : ℕ) (s : World × Mixer)
    → m ≡ a + b
    → play_from o m t s ≡ emit (play_from o a t s).1 (play_from o b (t + a) (play_from o a t s).0)
unfolding play_from play_samples
play_from_append o zero b m t s h =
    let all : m ≡ b = omega arith in
    let still : t ≡ t + zero = omega arith in
    ap (λ k. play_from o k t s) all ∙ ap (λ k. play_from o b k s) still
play_from_append o (suc a) b zero t s h = absurd (omega arith)
play_from_append o (suc a) b (suc m) t s h =
    let v = enter_slot o (t / frame_size) s in
    let x = get_or v.1.mix_buf (t % frame_size) 0 in
    let go : (World × Mixer) × List F32 → (World × Mixer) × List F32 =
      λ r. emit r.1 (play_from o b (t + suc a) r.0) in
    let moment : t + 1 + a ≡ t + suc a = omega arith in
    play_from_step o m t s
    ∙ ap (emit (x ∷ [])) (
        play_from_append o a b m (t + 1) v (omega arith)
        ∙ ap (λ k. emit (play_from o a (t + 1) v).1 (play_from o b k (play_from o a (t + 1) v).0))
            moment)
    ∙ ap go (sym (play_from_step o a t s))

-- The counter of the samples is none of the mixer's business.
abbrev with_played : ℕ → World × Mixer → World × Mixer
with_played p s = (record s.0 { played_samples = p }, s.1)

enter_slot-with_played :
    (o : MixOps) (slot p : ℕ) (s : World × Mixer)
    → enter_slot o slot (with_played p s) ≡ with_played p (enter_slot o slot s)
unfolding mix_frame
enter_slot-with_played o slot p s = elim (Bool-cases (slot == s.1.mix_slot)) [
  | inl e ↦ simp e refl
  | inr e ↦ simp e refl
]

play_from-with_played :
    (o : MixOps) (n t p : ℕ) (s : World × Mixer)
    → play_from o n t (with_played p s)
      ≡ (with_played p (play_from o n t s).0, (play_from o n t s).1)
unfolding play_from play_samples
play_from-with_played o zero t p s = refl
play_from-with_played o (suc n) t p s =
    let v = enter_slot o (t / frame_size) s in
    play_from_step o n t (with_played p s)
    ∙ ap (λ u. emit (get_or u.1.mix_buf (t % frame_size) 0 ∷ []) (play_from o n (t + 1) u))
        (enter_slot-with_played o (t / frame_size) p s)
    ∙ ap (emit (get_or v.1.mix_buf (t % frame_size) 0 ∷ [])) (play_from-with_played o n (t + 1) p v)
    ∙ ap (λ r. (with_played p r.0, r.1)) (sym (play_from_step o n t s))

-- What is kept along the samples.
play_from-keeps :
    (P : World × Mixer → Type 0) (o : MixOps)
    → ((slot : ℕ) (s : World × Mixer) → P s → P (enter_slot o slot s))
    → (n t : ℕ) (s : World × Mixer) → P s
    → P (play_from o n t s).0
unfolding play_from play_samples
play_from-keeps P o h zero t s p = p
play_from-keeps P o h (suc n) t s p =
    subst (λ r. P r.0) (sym (play_from_step o n t s))
      (play_from-keeps P o h n (t + 1) (enter_slot o (t / frame_size) s) (h (t / frame_size) s p))

pub played-enter_slot :
    (o : MixOps) (slot : ℕ) (s : World × Mixer)
    → (enter_slot o slot s).0.played_samples ≡ s.0.played_samples
unfolding mix_frame
played-enter_slot o slot s = elim (Bool-cases (slot == s.1.mix_slot)) [
  | inl e ↦ simp e refl
  | inr e ↦ simp e refl
]

played-play_from :
    (o : MixOps) (n t : ℕ) (s : World × Mixer)
    → (play_from o n t s).0.0.played_samples ≡ s.0.played_samples
played-play_from o n t s =
    play_from-keeps (λ u. u.0.played_samples ≡ s.0.played_samples) o
      (λ slot u h. played-enter_slot o slot u ∙ h) n t s refl

-- The samples of a call, with the counter as the call leaves it.
abbrev pub due_samples : MixOps → ℕ → World × Mixer → (World × Mixer) × List F32
due_samples o n s =
    let r = play_from o n s.0.played_samples s in
    (with_played ((s.0.played_samples + n) % 2 ^ 64) r.0, r.1)

-- A call, whose frame so far has 960 samples, fills its buffer in chunks as if it went sample by
-- sample, each one read at the place in its frame that the counter of all samples gives; the
-- counter moves on by the samples of the call.
pub audio_callback_samples :
    (o : MixOps) (n : ℕ) (s : World × Mixer) → HasFrame s → audio_callback o n s ≡ due_samples o n s
unfolding audio_callback play_from
audio_callback_samples o n s f =
    let p = s.0.played_samples in
    let within : p % frame_size < frame_size = omega arith in
    ap (λ r. (with_played ((r.0.0.played_samples + n) % 2 ^ 64) r.0, r.1))
      (fill_samples o n n (p / frame_size) (p % frame_size) s f within (omega arith))
    ∙ ap (λ k. (with_played ((k + n) % 2 ^ 64) (play_from o n p s).0, (play_from o n p s).1))
        (played-play_from o n p s)

due_samples-HasFrame :
    (o : MixOps) (n : ℕ) (s : World × Mixer) → HasFrame s → HasFrame (due_samples o n s).0
due_samples-HasFrame o n s =
    play_from-keeps HasFrame o (enter_slot-HasFrame o) n s.0.played_samples s

-- Two calls one after the other give the samples that one call of their joint length gives, and
-- leave the same state: no sample is lost, doubled or mixed twice where one call ends and the next
-- begins, wherever in a frame that is. The frame so far has 960 samples, and fewer than 2 ^ 64
-- samples are played since the stream began.
pub audio_callback-append :
    (o : MixOps) (a b : ℕ) (s : World × Mixer)
    → HasFrame s
    → s.0.played_samples + a + b < 2 ^ 64
    → audio_callback o (a + b) s ≡ (
      (audio_callback o b (audio_callback o a s).0).0,
      (audio_callback o a s).1 ++ (audio_callback o b (audio_callback o a s).0).1,
    )
audio_callback-append o a b s f bound =
    let p = s.0.played_samples in
    let r = play_from o a p s in
    let first = (due_samples o a s).0 in
    let moment : (p + a) % 2 ^ 64 ≡ p + a = omega arith in
    let total : (p + (a + b)) % 2 ^ 64 ≡ (p + a + b) % 2 ^ 64 = omega arith in
    let second : due_samples o b first ≡ (
      with_played ((p + a + b) % 2 ^ 64) (play_from o b (p + a) r.0).0,
      (play_from o b (p + a) r.0).1,
    ) =
      ap
        (λ k. (with_played ((k + b) % 2 ^ 64) (play_from o b k first).0, (play_from o b k first).1))
        moment
      ∙ ap (λ q. (with_played ((p + a + b) % 2 ^ 64) q.0, q.1))
          (play_from-with_played o b (p + a) ((p + a) % 2 ^ 64) r.0) in
    audio_callback_samples o (a + b) s f
    ∙ ap (λ q. (with_played ((p + (a + b)) % 2 ^ 64) q.0, q.1))
        (play_from_append o a b (a + b) p s refl)
    ∙ ap (λ k. (with_played k (play_from o b (p + a) r.0).0, r.1 ++ (play_from o b (p + a) r.0).1))
        total
    ∙ ap (λ q. (q.0, r.1 ++ q.1))
        (sym (audio_callback_samples o b first (due_samples-HasFrame o a s f) ∙ second))
    ∙ ap (λ q. ((audio_callback o b q.0).0, q.1 ++ (audio_callback o b q.0).1))
        (sym (audio_callback_samples o a s f))
