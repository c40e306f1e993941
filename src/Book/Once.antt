-- ===== src/Book/Once.antt =====
-- One notify of the server makes several events; the sounds of an edited and of a moved channel
-- are played once in a batch.
use nek.Common.{
  ℕ, ◌+◌, ◌/◌, ◌%◌, ◌^◌, ◌≤◌, ◌≡◌, ◌⊎◌, inl, inr, refl, ap, ◌∙◌, arith, true, Option, List, [], ◌∷◌,
  ◌++◌, length, length-append, filter, filter-append, if◌then◌else◌, ◌==◌, Bool-cases,
}
use nek.Model.{World}
use nek.Sound.{push_sfx}
use nek.Sound.Kind
use nek.Book.Data.{Book, Event}
use nek.Book.Refresh.{GainOps}
use nek.Book.Trigger.{Batch, play, play_once, is_fired}
use nek.Book.Events.{tell_batch, tell_event, new_batch, on_book_events}
use nek.Book.Quiet.{heard-tell_event}
use nek.Book.Plain.{is_once, is_plain}
use nek.Book.Induction.{book_events-P}

-- How often a kind is queued.
abbrev pub occurrences : ℕ → List ℕ → ℕ
occurrences k q = length (filter (λ j. j == k) q)

occurrences-append :
    (k j : ℕ) (q : List ℕ)
    → occurrences k (q ++ j ∷ []) ≡ occurrences k q + (if j == k then 1 else 0)
occurrences-append k j q =
    ap length (filter-append (λ i. i == k) q (j ∷ []))
    ∙ length-append (filter (λ i. i == k) q) (filter (λ i. i == k) (j ∷ []))
    ∙ (elim (Bool-cases (j == k)) [ inl e ↦ rw e refl | inr e ↦ rw e refl ])

once_cases : (kind : ℕ) → is_once kind ≡ true → (kind ≡ 23) ⊎ (kind ≡ 24)
once_cases kind h = ground arith

-- The sounds of the batch that are played once are those that its mask tells.
Told : ℕ → ℕ → Batch → Type 0
Told n m b =
    (occurrences 23 b.world.sfx_queue ≡ n + (b.batch_fired / 2 ^ 22) % 2)
    × (occurrences 24 b.world.sfx_queue ≡ m + (b.batch_fired / 2 ^ 23) % 2)

module _ (n m : ℕ) where
  play-Told : (kind : ℕ) (b : Batch) → is_plain kind ≡ true → Told n m b → Told n m (play kind b)
  unfolding push_sfx Told
  play-Told kind b h p = (
    ground (arith, occurrences-append 23 kind b.world.sfx_queue),
    ground (arith, occurrences-append 24 kind b.world.sfx_queue),
  )

  edited-Told : (b : Batch) → Told n m b → Told n m (play_once 23 b)
  unfolding play_once push_sfx Told
  edited-Told b p = elim (Bool-cases (is_fired 23 b.batch_fired)) [
    | inl e ↦ simp e p
    | inr e ↦ simp e (
      ground (arith, p, e, occurrences-append 23 23 b.world.sfx_queue),
      ground (arith, p, e, occurrences-append 24 23 b.world.sfx_queue),
    )
  ]

  moved-Told : (b : Batch) → Told n m b → Told n m (play_once 24 b)
  unfolding play_once push_sfx Told
  moved-Told b p = elim (Bool-cases (is_fired 24 b.batch_fired)) [
    | inl e ↦ simp e p
    | inr e ↦ simp e (
      ground (arith, p, e, occurrences-append 23 24 b.world.sfx_queue),
      ground (arith, p, e, occurrences-append 24 24 b.world.sfx_queue),
    )
  ]

  once-Told :
      (kind : ℕ) (b : Batch) → is_once kind ≡ true → Told n m b → Told n m (play_once kind b)
  once-Told kind b h p = elim (once_cases kind h) [
    | inl e ↦ rw e (edited-Told b p)
    | inr e ↦ rw e (moved-Told b p)
  ]

  tell-Told :
      (o : GainOps) (now : ℕ) (book : Option Book) (e : Event) (b : Batch)
      → Told n m b
      → Told n m (tell_batch o now book e b)
  unfolding Told tell_event
  tell-Told o now book e b p =
      let told = heard-tell_event o now book e b.world in
      (ap (λ h. occurrences 23 h.0) told ∙ p.0, ap (λ h. occurrences 24 h.0) told ∙ p.1)

-- A batch queues the sound of an edited channel once at most, and that of a moved channel once at
-- most, however many of its events tell of edits and moves.
pub on_book_events_once :
    (o : GainOps) (now : ℕ) (book : Option Book) (events : List Event) (w : World)
    → (occurrences Kind.channel_edited (on_book_events o now book events w).sfx_queue
        ≤ occurrences Kind.channel_edited w.sfx_queue + 1)
      × (occurrences Kind.channel_moved (on_book_events o now book events w).sfx_queue
          ≤ occurrences Kind.channel_moved w.sfx_queue + 1)
unfolding on_book_events Told
on_book_events_once o now book events w =
    let n = occurrences 23 w.sfx_queue in
    let m = occurrences 24 w.sfx_queue in
    let told =
      book_events-P (Told n m) (play-Told n m) (once-Told n m) (λ cid b p. p) (λ b p. p) o now book
        (tell-Told n m o now book) events (new_batch w) (omega arith, omega arith) in
    (omega (arith, told.0), omega (arith, told.1))
