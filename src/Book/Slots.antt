-- ===== src/Book/Slots.antt =====
-- Every queued sound has a place among the 37 samples.
use nek.Common.{
  ℕ, ◌≡◌, ap, ◌∙◌, arith, Bool, true, Option, List, [], ◌∷◌, ◌++◌, ◌&&◌, leb, Bool-cases, inl, inr,
}
use nek.Model.{World}
use nek.Sound.{push_sfx}
use nek.Book.Data.{Book, Event}
use nek.Book.Refresh.{GainOps}
use nek.Book.Trigger.{Batch, play, play_once, is_fired}
use nek.Book.Events.{tell_event, new_batch, on_book_events}
use nek.Book.Quiet.{heard-tell_event}
use nek.Book.Plain.{is_once, is_plain, if_elim}
use nek.Book.Induction.{book_events-P}

-- 1 to 37, so that `kind - 1` indexes the samples.
abbrev pub has_slots : List ℕ → Bool
has_slots [] = true
has_slots (k ∷ q) = leb 1 k && leb k 37 && has_slots q

abbrev HasSlots : Batch → Type 0
HasSlots b = has_slots b.world.sfx_queue ≡ true

has_slots-append :
    (q : List ℕ) (k : ℕ)
    → (leb 1 k && leb k 37) ≡ true
    → has_slots q ≡ true
    → has_slots (q ++ k ∷ []) ≡ true
has_slots-append [] k h p = ground arith
has_slots-append (j ∷ q) k h p = elim (Bool-cases (leb 1 j && leb j 37)) [
  | inl e ↦ ground (arith, e, has_slots-append q k h)
  | inr e ↦ ground (arith, e)
]

play-HasSlots : (kind : ℕ) (b : Batch) → is_plain kind ≡ true → HasSlots b → HasSlots (play kind b)
unfolding push_sfx
play-HasSlots kind b h p = has_slots-append b.world.sfx_queue kind (ground arith) p

once-HasSlots :
    (kind : ℕ) (b : Batch) → is_once kind ≡ true → HasSlots b → HasSlots (play_once kind b)
unfolding play_once push_sfx
once-HasSlots kind b h p =
    if_elim HasSlots (is_fired kind b.batch_fired) b _ p
      (has_slots-append b.world.sfx_queue kind (ground arith) p)

-- If every queued sound is one of the kinds 1 to 37, it stays so over a batch of events: the
-- audio callback finds a sample, or the lack of one, for whatever it takes from the queue.
pub on_book_events-has_slots :
    (o : GainOps) (now : ℕ) (book : Option Book) (events : List Event) (w : World)
    → has_slots w.sfx_queue ≡ true
    → has_slots (on_book_events o now book events w).sfx_queue ≡ true
unfolding on_book_events tell_event
on_book_events-has_slots o now book events w h =
    book_events-P HasSlots play-HasSlots once-HasSlots (λ cid b p. p) (λ b p. p) o now book
      (λ e b p. ap (λ s. has_slots s.0) (heard-tell_event o now book e b.world) ∙ p) events
      (new_batch w) h
