-- ===== src/Book/Quiet.antt =====
-- What telling Dart of an event leaves alone, and the batches that no sound goes with.
use nek.Common.{ℕ, ◌≡◌, refl, ap, ◌∙◌, Bool, true, false, Option, none, some, List, [], ◌∷◌}
use nek.Model.{World}
use nek.Book.Data.{
  Book, Event, message, property_added, property_changed, property_removed, to_server, to_channel,
  to_client, to_poke,
}
use nek.Book.Refresh.{GainOps, refresh_from_book}
use nek.Book.Trigger.{Batch, maybe_trigger_sfx}
use nek.Book.Events.{
  tell_message, update_roster, tell_event, tell_batch, sound_event, book_events, new_batch,
  on_book_events,
}

-- The part of the state that has to do with sounds.
abbrev pub heard : World → List ℕ × (Bool × Bool)
heard w = (w.sfx_queue, (w.sfx_armed, w.sfx_suppress_disconnect))

pub heard-tell_event :
    (o : GainOps) (now : ℕ) (book : Option Book) (e : Event) (w : World)
    → heard (tell_event o now book e w) ≡ heard w
unfolding tell_event tell_message update_roster refresh_from_book
heard-tell_event o now book (message (to_poke c) i text) w = refl
heard-tell_event o now book (message to_server i text) w = refl
heard-tell_event o now book (message to_channel i text) w = refl
heard-tell_event o now book (message (to_client c) i text) w = refl
heard-tell_event o now none (property_added id i r) w = refl
heard-tell_event o now none (property_changed id old i r) w = refl
heard-tell_event o now none (property_removed id old r) w = refl
heard-tell_event o now (some b) (property_added id i r) w = refl
heard-tell_event o now (some b) (property_changed id old i r) w = refl
heard-tell_event o now (some b) (property_removed id old r) w = refl

-- An event that comes while the sounds are not armed.
sound_event_unarmed :
    (book : Option Book) (e : Event) (b : Batch)
    → b.world.sfx_armed ≡ false
    → sound_event book e b ≡ b
unfolding maybe_trigger_sfx
sound_event_unarmed none e b h = refl
sound_event_unarmed (some book) e b h = rw h refl

pub heard-book_events_unarmed :
    (o : GainOps) (now : ℕ) (book : Option Book) (events : List Event) (b : Batch)
    → b.world.sfx_armed ≡ false
    → heard (book_events o now book events b).world ≡ heard b.world
unfolding book_events
heard-book_events_unarmed o now book [] b h = refl
heard-book_events_unarmed o now book (e ∷ es) b h =
    let told = heard-tell_event o now book e b.world in
    let quiet = ap (λ p. p.1.0) told ∙ h in
    ap (λ c. heard (book_events o now book es c).world)
      (sound_event_unarmed book e (tell_batch o now book e b) quiet)
    ∙ heard-book_events_unarmed o now book es (tell_batch o now book e b) quiet
    ∙ told

-- The first batch after a connect makes no sound, whatever its events are; it leaves the mark
-- for a quiet end of the connection as it was, and the batches after it are armed.
pub on_book_events_first :
    (o : GainOps) (now : ℕ) (book : Option Book) (events : List Event) (w : World)
    → w.sfx_armed ≡ false
    → heard (on_book_events o now book events w) ≡ (w.sfx_queue, (true, w.sfx_suppress_disconnect))
unfolding on_book_events
on_book_events_first o now book events w h =
    ap (λ p. (p.0, (true, p.1.1))) (heard-book_events_unarmed o now book events (new_batch w) h)
