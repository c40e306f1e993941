-- ===== src/Book/Events.antt =====
-- The arm `StreamItem::BookEvents`: every event of a batch is told to Dart and may sound.
use nek.Common.{ℕ, true, Option, none, some, List, [], ◌∷◌}
use nek.Common.Text.{Text}
use nek.Common.Table.{lookup}
use nek.Model.{World, TsChannel, TsClient, push_event, poke, text_message, channels_updated}
use nek.Book.Data.{
  Book, BookClient, Invoker, Event, MessageTarget, message, to_server, to_channel, to_client,
  to_poke,
}
use nek.Book.Refresh.{GainOps, refresh_from_book}
use nek.Book.Trigger.{Batch, View, maybe_trigger_sfx}

-- A poke is no chat; the other messages are told apart by their target mode.
unfoldable pub tell_message : MessageTarget → Invoker → Text → World → World
tell_message (to_poke c) i text w = push_event (poke i.invoker_name i.invoker_id text) w
tell_message to_server i text w = push_event (text_message i.invoker_name i.invoker_id 3 text) w
tell_message to_channel i text w = push_event (text_message i.invoker_name i.invoker_id 2 text) w
tell_message (to_client c) i text w = push_event (text_message i.invoker_name i.invoker_id 1 text) w

abbrev with_roster : List TsChannel → List TsClient → World → World
with_roster channels clients w = record w {
  state = record w.state { channels = channels; clients = clients };
}

-- The roster is made new and Dart is told to read it.
unfoldable pub update_roster : GainOps → ℕ → Book → World → World
unfolding refresh_from_book
update_roster o now book w =
    let (v, (channels, clients)) = refresh_from_book o now book w in
    push_event channels_updated (with_roster channels clients v)

unfoldable pub tell_event : GainOps → ℕ → Option Book → Event → World → World
unfolding tell_message update_roster
tell_event o now book (message target invoker text) w = tell_message target invoker text w
tell_event o now none event w = w
tell_event o now (some book) event w = update_roster o now book w

abbrev channel_of_client : Option BookClient → Option ℕ
channel_of_client none = none
channel_of_client (some c) = some c.channel

abbrev pub view_of : Book → View
view_of book = record {
  own = book.own_client;
  own_channel = channel_of_client (lookup book.own_client book.clients);
  book = book;
}

abbrev pub sound_event : Option Book → Event → Batch → Batch
unfolding maybe_trigger_sfx
sound_event none event b = b
sound_event (some book) event b = maybe_trigger_sfx (view_of book) event b

abbrev pub tell_batch : GainOps → ℕ → Option Book → Event → Batch → Batch
unfolding tell_event
tell_batch o now book event b = record b { world = tell_event o now book event b.world }

unfoldable pub book_events : GainOps → ℕ → Option Book → List Event → Batch → Batch
unfolding tell_event maybe_trigger_sfx
book_events o now book [] b = b
book_events o now book (e ∷ es) b =
    book_events o now book es (sound_event book e (tell_batch o now book e b))

abbrev pub new_batch : World → Batch
new_batch w = record { batch_fired = 0; batch_handled = []; world = w }

-- From the second batch on the events sound.
unfoldable pub on_book_events : GainOps → ℕ → Option Book → List Event → World → World
unfolding book_events
on_book_events o now book events w = record (book_events o now book events (new_batch w)).world {
  sfx_armed = true;
}
