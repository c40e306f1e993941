-- ===== src/Book/Kick.antt =====
-- A kick or a ban from the server has its own sound: the end of the connection that follows adds
-- none.
use nek.Common.{
  ℕ, ◌+◌, ◌-◌, ◌^◌, ◌≡◌, refl, ap, ◌∙◌, Bool, true, false, Option, some, List, [], ◌∷◌, any, ◌==◌,
  Bool-cases, inl, inr,
}
use nek.Model.{World, kick_server, kick_server_ban}
use nek.Sound.{push_sfx, schedule_teardown_after_kick_sfx}
use nek.Book.Data.{Book, Event, id_client, value_client, property_removed}
use nek.Book.Refresh.{GainOps}
use nek.Book.Trigger.{
  Batch, View, play, play_once, is_fired, maybe_trigger_sfx, trigger, trigger_client_removed,
  trigger_own_removed,
}
use nek.Book.Events.{
  tell_batch, tell_event, sound_event, book_events, new_batch, on_book_events, view_of,
}
use nek.Book.Quiet.{heard, heard-tell_event}
use nek.Book.Plain.{if_elim}
use nek.Book.Induction.{book_events-P, sound_event-P}
use nek.EventLoop.Ending.{end_by_server, is_current}

-- The own client left the view because the server kicked or banned it.
abbrev pub is_server_kick : ℕ → Event → Bool
is_server_kick own (property_removed (id_client cid) (value_client c) (some kick_server)) =
    cid == own
is_server_kick own (property_removed (id_client cid) (value_client c) (some kick_server_ban)) =
    cid == own
is_server_kick own _ = false

abbrev Marked : Batch → Type 0
Marked b = b.world.sfx_suppress_disconnect ≡ true

abbrev Armed : Batch → Type 0
Armed b = b.world.sfx_armed ≡ true

once-same :
    (P : Batch → Type 0) (kind : ℕ) (b : Batch)
    → P b
    → P (play kind (record b { batch_fired = b.batch_fired + 2 ^ (kind - 1) }))
    → P (play_once kind b)
unfolding play_once
once-same P kind b p q = if_elim P (is_fired kind b.batch_fired) b _ p q

sound_event-Armed :
    (book : Option Book) (e : Event) (b : Batch) → Armed b → Armed (sound_event book e b)
unfolding push_sfx
sound_event-Armed =
    sound_event-P Armed (λ k b h p. p) (λ k b h p. once-same Armed k b p p) (λ c b p. p) (λ b p. p)

tell_batch-Armed :
    (o : GainOps) (now : ℕ) (book : Option Book) (e : Event) (b : Batch)
    → Armed b
    → Armed (tell_batch o now book e b)
unfolding tell_event
tell_batch-Armed o now book e b p = ap (λ h. h.1.0) (heard-tell_event o now book e b.world) ∙ p

book_events-Marked :
    (o : GainOps) (now : ℕ) (book : Option Book) (events : List Event) (b : Batch)
    → Marked b
    → Marked (book_events o now book events b)
unfolding push_sfx tell_event
book_events-Marked o now book =
    book_events-P Marked (λ k b h p. p) (λ k b h p. once-same Marked k b p p) (λ c b p. p)
      (λ b p. refl) o now book
      (λ e b p. ap (λ h. h.1.1) (heard-tell_event o now book e b.world) ∙ p)

kick-Marked :
    (v : View) (e : Event) (b : Batch) → is_server_kick v.own e ≡ true → Marked (trigger v e b)
unfolding trigger trigger_client_removed trigger_own_removed push_sfx
kick-Marked v (property_removed (id_client cid) (value_client c) (some kick_server)) b h =
    simp h refl
kick-Marked v (property_removed (id_client cid) (value_client c) (some kick_server_ban)) b h =
    simp h refl
kick-Marked v _ b h = absurd (cc h)

kick-book_events :
    (o : GainOps) (now : ℕ) (book : Book) (events : List Event) (b : Batch)
    → Armed b
    → any (is_server_kick book.own_client) events ≡ true
    → Marked (book_events o now (some book) events b)
unfolding book_events maybe_trigger_sfx
kick-book_events o now book [] b a h = absurd (cc h)
kick-book_events o now book (e ∷ es) b a h =
    let told = tell_batch-Armed o now (some book) e b a in
    elim (Bool-cases (is_server_kick book.own_client e)) [
      | inl kicked ↦
          book_events-Marked o now (some book) es _
            (simp told (kick-Marked (view_of book) e (tell_batch o now (some book) e b) kicked))
      | inr other ↦
          kick-book_events o now book es _
            (sound_event-Armed (some book) e (tell_batch o now (some book) e b) told)
            (simp other at h)
    ]

heard-end_by_server :
    (generation : ℕ) (w : World)
    → is_current generation w ≡ true
    → w.sfx_suppress_disconnect ≡ true
    → heard (end_by_server generation w) ≡ (w.sfx_queue, (w.sfx_armed, false))
unfolding end_by_server schedule_teardown_after_kick_sfx
heard-end_by_server generation w current marked = simp (current, marked) refl

-- Once the sounds are armed: when a batch tells that the server kicked or banned the own client,
-- and the stream then ends, the newest loop adds no sound to those that the batch queued, and the
-- mark that kept it quiet is gone.
pub end_by_server-on_book_events :
    (o : GainOps) (now generation : ℕ) (book : Book) (events : List Event) (w : World)
    → w.sfx_armed ≡ true
    → any (is_server_kick book.own_client) events ≡ true
    → is_current generation (on_book_events o now (some book) events w) ≡ true
    → heard (end_by_server generation (on_book_events o now (some book) events w))
      ≡ ((on_book_events o now (some book) events w).sfx_queue, (true, false))
unfolding on_book_events
end_by_server-on_book_events o now generation book events w armed kicked current =
    heard-end_by_server generation (on_book_events o now (some book) events w) current
      (kick-book_events o now book events (new_batch w) armed kicked)
