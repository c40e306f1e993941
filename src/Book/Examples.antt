-- ===== src/Book/Examples.antt =====
-- The theorems about the batches of events, each at an input, and the sounds of some events.
use nek.Common.{ℕ, ◌+◌, ◌≤◌, ◌≡◌, refl, true, false, none, some, List, [], ◌∷◌, map, length, Bool}
use nek.Common.Text.{Text, lit}
use nek.Model.{World, no_reason, kick_server, pos, initial_world}
use nek.Sound.Kind
use nek.EventLoop.Ending.{end_by_server}
use nek.Book.Data.{
  Book, BookClient, BookChannel, Event, property_added, property_changed, property_removed,
  id_client, client_channel, channel_edit, channel_name, channel_topic, channel_parent,
  value_channel_id, value_client, other_value, normal,
}
use nek.Book.Refresh.{GainOps, values}
use nek.Book.Events.{on_book_events, update_roster}
use nek.Book.Quiet.{heard, on_book_events_first}
use nek.Book.Movement.{came, changed, left, on_book_events_movement}
use nek.Book.Once.{occurrences, on_book_events_once}
use nek.Book.Slots.{has_slots, on_book_events-has_slots}
use nek.Book.Kick.{end_by_server-on_book_events}
use nek.Book.Roster.{members, client_count-update_roster}

abbrev gains : GainOps
gains = record { max = λ a b. a; log10 = λ a. a; mul = λ a b. b }

abbrev client : ℕ → Text → ℕ → BookClient
client id name channel = record {
  id = id;
  name = name;
  channel = channel;
  uid = none;
  avatar_hash = [];
  database_id = id;
  away_message = none;
  input_muted = false;
  output_muted = false;
  client_type = normal;
  is_channel_commander = false;
  is_recording = false;
  is_priority_speaker = false;
  talk_power_granted = false;
  talk_power = pos 0;
  permission_hints = none;
  server_groups = [];
  channel_group = 1;
}

abbrev channel : ℕ → Text → BookChannel
channel id name = record {
  id = id;
  name = name;
  parent = 0;
  topic = none;
  has_password = none;
  order = 0;
  is_default = none;
  permission_hints = none;
  needed_talk_power = none;
}

abbrev book : Book
book = record {
  own_client = 4;
  clients = (4, client 4 (lit "me") 1) ∷ (7, client 7 (lit "you") 1) ∷ [];
  channels = (1, channel 1 (lit "lobby")) ∷ (2, channel 2 (lit "empty")) ∷ [];
  book_server_groups = [];
  book_channel_groups = [];
}

-- The same server, once the own client is gone.
abbrev left_book : Book
left_book = record book { clients = (7, client 7 (lit "you") 1) ∷ [] }

abbrev armed : World
armed = record (initial_world []) { sfx_armed = true; connection_generation = 3 }

-- A client comes, is moved, and leaves.
abbrev visit : List Event
visit =
    property_added (id_client 7) none (some no_reason)
    ∷ property_changed (client_channel 7) (value_channel_id 2) none none
    ∷ property_removed (id_client 7) (value_client (client 7 (lit "you") 1)) none
    ∷ []

abbrev edits : List Event
edits =
    property_changed (channel_edit channel_name 1) other_value none none
    ∷ property_changed (channel_edit channel_topic 1) other_value none none
    ∷ property_changed (channel_parent 1) other_value none none
    ∷ []

abbrev kick : List Event
kick = property_removed (id_client 4) (value_client (client 4 (lit "me") 1)) (some kick_server) ∷ []

visit_sound :
    (on_book_events gains 100 (some book) visit armed).sfx_queue ≡ Kind.neutral_conn_connected ∷ []
unfolding on_book_events nek.Book.Events.book_events nek.Book.Events.tell_event
    nek.Book.Events.update_roster nek.Book.Refresh.refresh_from_book
    nek.Book.Trigger.maybe_trigger_sfx nek.Book.Trigger.trigger
    nek.Book.Trigger.trigger_client_added nek.Book.Trigger.trigger_changed
    nek.Book.Trigger.trigger_client_moved nek.Book.Trigger.trigger_client_removed
    nek.Book.Trigger.play_movement nek.Sound.push_sfx nek.Common.Table.lookup initial_world
visit_sound = refl

on_book_events_first_example :
    heard (on_book_events gains 100 (some book) visit (initial_world []))
    ≡ ((initial_world []).sfx_queue, (true, (initial_world []).sfx_suppress_disconnect))
unfolding initial_world
on_book_events_first_example =
    on_book_events_first gains 100 (some book) visit (initial_world []) refl

on_book_events_movement_example :
    length (on_book_events gains 100 (some book) visit armed).sfx_queue ≤ length armed.sfx_queue + 1
on_book_events_movement_example = on_book_events_movement gains 100 7 book visit armed refl (
  came none (some no_reason),
  (changed (value_channel_id 2) none none, (left (value_client (client 7 (lit "you") 1)) none, tt)),
)

on_book_events_once_example :
    (occurrences Kind.channel_edited (on_book_events gains 100 (some book) edits armed).sfx_queue
      ≤ occurrences Kind.channel_edited armed.sfx_queue + 1)
    × (occurrences Kind.channel_moved (on_book_events gains 100 (some book) edits armed).sfx_queue
        ≤ occurrences Kind.channel_moved armed.sfx_queue + 1)
on_book_events_once_example = on_book_events_once gains 100 (some book) edits armed

on_book_events-has_slots_example :
    has_slots (on_book_events gains 100 (some book) edits armed).sfx_queue ≡ true
unfolding initial_world
on_book_events-has_slots_example = on_book_events-has_slots gains 100 (some book) edits armed refl

end_by_server-on_book_events_example :
    heard (end_by_server 3 (on_book_events gains 100 (some left_book) kick armed))
    ≡ ((on_book_events gains 100 (some left_book) kick armed).sfx_queue, (true, false))
unfolding on_book_events nek.Book.Events.book_events nek.Book.Events.tell_event
    nek.Book.Events.update_roster nek.Book.Refresh.refresh_from_book
    nek.Book.Trigger.maybe_trigger_sfx nek.Book.Trigger.trigger
    nek.Book.Trigger.trigger_client_removed nek.Book.Trigger.trigger_own_removed nek.Sound.push_sfx
    initial_world
end_by_server-on_book_events_example =
    end_by_server-on_book_events gains 100 3 left_book kick armed refl refl refl

client_count-update_roster_example :
    map (λ c. c.client_count) (update_roster gains 100 book armed).state.channels
    ≡ map (λ c. length (members c.id (values book.clients))) (values book.channels)
client_count-update_roster_example = client_count-update_roster gains 100 book armed
