-- ===== src/Book/Movement.antt =====
-- A client that moves several times in a batch (a kick is told as a move and as a leave) sounds
-- once.
use nek.Common.{
  ℕ, ◌+◌, ◌≤◌, ◌≡◌, inl, inr, refl, ap, arith, false, Option, none, some, List, [], ◌∷◌, any,
  length, length-append, if◌then◌else◌, ◌==◌, Bool-cases, Option-cases, All,
}
use nek.Common.Table.{lookup}
use nek.Model.{World, Reason}
use nek.Sound.{push_sfx}
use nek.Book.Data.{
  Book, Event, PropertyValue, Invoker, property_added, property_changed, property_removed,
  id_client, client_channel, value_channel_id, value_client,
}
use nek.Book.Refresh.{GainOps}
use nek.Book.Trigger.{
  Batch, View, maybe_trigger_sfx, trigger, play_movement, trigger_client_added,
  trigger_client_moved, trigger_client_removed, trigger_changed, is_subscription, is_here,
  added_sound, move_sound, removed_sound,
}
use nek.Book.Events.{tell_batch, sound_event, book_events, new_batch, on_book_events, view_of}
use nek.Book.Quiet.{heard-tell_event}

-- The events that say that a client came, changed its channel or left.
pub data MovementOf (cid : ℕ) : Event → Type 0 where
  came :
      (i : Option Invoker) (r : Option Reason) → MovementOf cid (property_added (id_client cid) i r)
  changed :
      (old : PropertyValue) (i : Option Invoker) (r : Option Reason)
      → MovementOf cid (property_changed (client_channel cid) old i r)
  left :
      (old : PropertyValue) (r : Option Reason)
      → MovementOf cid (property_removed (id_client cid) old r)

-- What such an event does: nothing, or a sound of that movement.
data Moved (cid : ℕ) (b : Batch) (c : Batch) : Type 0 where
  silent : c ≡ b → Moved cid b c
  sounded : (s : Option ℕ) → c ≡ play_movement cid s b → Moved cid b c

came_moved :
    (v : View) (cid : ℕ) (r : Option Reason) (b : Batch)
    → Moved cid b (trigger_client_added v cid r b)
unfolding trigger_client_added
came_moved v cid r b = elim (Bool-cases (cid == v.own)) [
  | inl own ↦ silent (simp own)
  | inr other ↦ elim (Bool-cases (is_subscription r)) [
    | inl sub ↦ silent (simp (other, sub))
    | inr seen ↦ elim (Option-cases (lookup cid v.book.clients)) [
      | inl gone ↦ silent (simp (other, seen, gone))
      | inr (c, found) ↦ elim (Bool-cases (is_here v.own_channel c.channel)) [
        | inl here ↦ sounded (added_sound r) (simp (other, seen, found, here))
        | inr away ↦ silent (simp (other, seen, found, away))
      ]
    ]
  ]
]

changed_moved :
    (v : View) (cid : ℕ) (old : PropertyValue) (i : Option Invoker) (r : Option Reason) (b : Batch)
    → (cid == v.own) ≡ false
    → Moved cid b (trigger_client_moved v cid old i r b)
unfolding trigger_client_moved
changed_moved v cid (value_channel_id from) i r b other =
    elim (Option-cases (lookup cid v.book.clients)) [
      | inl gone ↦ silent (rw (gone, trigger_client_moved))
      | inr (c, found) ↦ elim (Bool-cases (from == c.channel)) [
        | inl stays ↦ silent (rw (found, trigger_client_moved) (simp stays))
        | inr goes ↦
            sounded (move_sound v.own_channel from c.channel r)
              (rw (found, trigger_client_moved) (simp (goes, other)))
      ]
    ]
changed_moved v cid _ i r b other = silent refl

left_moved :
    (v : View) (cid : ℕ) (old : PropertyValue) (r : Option Reason) (b : Batch)
    → (cid == v.own) ≡ false
    → Moved cid b (trigger_client_removed v cid old r b)
unfolding trigger_client_removed
left_moved v cid (value_client c) r b other = elim (Bool-cases (is_here v.own_channel c.channel)) [
  | inl here ↦ sounded (removed_sound r) (simp (other, here))
  | inr away ↦ silent (simp (other, away))
]
left_moved v cid _ r b other = silent refl

trigger_moved :
    (v : View) (cid : ℕ) (e : Event) (b : Batch)
    → (cid == v.own) ≡ false
    → MovementOf cid e
    → Moved cid b (trigger v e b)
unfolding trigger trigger_changed
trigger_moved v cid _ b other (came i r) = came_moved v cid r b
trigger_moved v cid _ b other (changed old i r) = changed_moved v cid old i r b other
trigger_moved v cid _ b other (left old r) = left_moved v cid old r b other

-- The sounds of the batch so far, and the one that the client may still make.
abbrev budget : ℕ → Batch → ℕ
budget cid b = length b.world.sfx_queue + (if any (λ c. c == cid) b.batch_handled then 0 else 1)

budget-play_movement :
    (cid : ℕ) (s : Option ℕ) (b : Batch) → budget cid (play_movement cid s b) ≤ budget cid b
unfolding play_movement push_sfx
budget-play_movement cid none b = elim (Bool-cases (any (λ c. c == cid) b.batch_handled)) [
  | inl seen ↦ ground (arith, seen)
  | inr new ↦ ground (arith, new)
]
budget-play_movement cid (some k) b = elim (Bool-cases (any (λ c. c == cid) b.batch_handled)) [
  | inl seen ↦ ground (arith, seen)
  | inr new ↦ ground (arith, new, length-append b.world.sfx_queue (k ∷ []))
]

budget-Moved : (cid : ℕ) (b c : Batch) → Moved cid b c → budget cid c ≤ budget cid b
budget-Moved cid b c (silent e) = rw e (omega arith)
budget-Moved cid b c (sounded s e) = rw e (budget-play_movement cid s b)

abbrev known : Option Book → List Book
known none = []
known (some book) = book ∷ []

budget-sound_event :
    (cid : ℕ) (book : Option Book) (e : Event) (b : Batch)
    → All (λ k. (cid == k.own_client) ≡ false) (known book)
    → MovementOf cid e
    → budget cid (sound_event book e b) ≤ budget cid b
unfolding maybe_trigger_sfx
budget-sound_event cid none e b other m = omega arith
budget-sound_event cid (some book) e b other m = elim (Bool-cases b.world.sfx_armed) [
  | inl armed ↦ simp armed (budget-Moved cid b _ (trigger_moved (view_of book) cid e b other.0 m))
  | inr unarmed ↦ simp unarmed (omega arith)
]

budget-book_events :
    (o : GainOps) (now cid : ℕ) (book : Option Book) (events : List Event) (b : Batch)
    → All (λ k. (cid == k.own_client) ≡ false) (known book)
    → All (MovementOf cid) events
    → budget cid (book_events o now book events b) ≤ budget cid b
unfolding book_events
budget-book_events o now cid book [] b other m = omega arith
budget-book_events o now cid book (e ∷ es) b other m =
    let told = tell_batch o now book e b in
    omega (
      arith,
      budget-book_events o now cid book es (sound_event book e told) other m.1,
      budget-sound_event cid book e told other m.0,
      ap (λ p. length p.0) (heard-tell_event o now book e b.world),
    )

-- A batch whose events all are about the movement of one client, that is not the own one, makes
-- one sound at most: a client that comes, moves or leaves more than once is heard once.
pub on_book_events_movement :
    (o : GainOps) (now cid : ℕ) (book : Book) (events : List Event) (w : World)
    → (cid == book.own_client) ≡ false
    → All (MovementOf cid) events
    → length (on_book_events o now (some book) events w).sfx_queue ≤ length w.sfx_queue + 1
unfolding on_book_events
on_book_events_movement o now cid book events w other m =
    omega (arith, budget-book_events o now cid (some book) events (new_batch w) (other, tt) m)
