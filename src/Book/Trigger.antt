-- ===== src/Book/Trigger.antt =====
-- `maybe_trigger_sfx`: which sound an event makes. The text that goes with a sound is only
-- printed, so a sound is its kind.
use nek.Common.{
  ℕ, ◌+◌, ◌-◌, ◌/◌, ◌%◌, ◌^◌, Bool, true, false, not, ◌&&◌, Option, none, some, List, ◌∷◌, any,
  if◌then◌else◌, ◌==◌, is_some,
}
use nek.Common.Table.{Table, lookup}
use nek.Model.{
  World, Reason, no_reason, moved, subscription, lost_connection, kick_channel, kick_server,
  kick_server_ban, clientdisconnect,
}
use nek.Sound.{push_sfx}
use nek.Sound.Kind
use nek.Book.Data.{
  Book, BookClient, Invoker, Event, PropertyId, PropertyValue, MessageTarget, message,
  property_added, property_changed, property_removed, to_poke, id_client, id_channel,
  client_channel, client_is_recording, client_input_muted, client_output_muted, client_away_message,
  client_channel_group, channel_parent, channel_edit, value_channel_id, value_bool, value_client,
}

-- What a batch carries from event to event, with the world: the bits of the kinds that may sound
-- once, and the clients whose movement was accounted for.
pub record Batch : Type 0 where
  pub batch_fired : ℕ
  pub batch_handled : List ℕ
  pub world : World

-- What a batch is judged by: the own client, the channel it is in, if it is in the view, and the
-- book.
pub record View : Type 0 where
  pub own : ℕ
  pub own_channel : Option ℕ
  pub book : Book

abbrev pub play : ℕ → Batch → Batch
play kind b = record b { world = push_sfx kind b.world }

abbrev pub play_opt : Option ℕ → Batch → Batch
play_opt none b = b
play_opt (some kind) b = play kind b

-- Some(c) == own_channel
abbrev pub is_here : Option ℕ → ℕ → Bool
is_here none c = false
is_here (some own) c = own == c

-- The bit of a kind in the mask.
abbrev pub is_fired : ℕ → ℕ → Bool
is_fired kind mask = (mask / 2 ^ (kind - 1)) % 2 == 1

-- Plays a kind, unless it was played in this batch.
unfoldable pub play_once : ℕ → Batch → Batch
play_once kind b =
    if is_fired kind b.batch_fired
    then b
    else play kind (record b { batch_fired = b.batch_fired + 2 ^ (kind - 1) })

-- Plays what the movement of a client makes, unless that client moved in this batch already.
unfoldable pub play_movement : ℕ → Option ℕ → Batch → Batch
play_movement cid sound b =
    if any (λ c. c == cid) b.batch_handled
    then b
    else play_opt sound (record b { batch_handled = cid ∷ b.batch_handled })

unfoldable pub trigger_message : View → MessageTarget → Invoker → Batch → Batch
trigger_message v (to_poke c) invoker b = play Kind.you_were_poked b
trigger_message v _ invoker b = if invoker.invoker_id == v.own then b else play Kind.chat_inbound b

abbrev pub is_subscription : Option Reason → Bool
is_subscription (some subscription) = true
is_subscription _ = false

abbrev pub added_sound : Option Reason → Option ℕ
added_sound (some no_reason) = some Kind.neutral_conn_connected
added_sound (some moved) = some Kind.neutral_moved_to_current
added_sound (some kick_channel) = some Kind.neutral_kicked_ch_to_current
added_sound _ = none

-- A client came into view.
unfoldable pub trigger_client_added : View → ℕ → Option Reason → Batch → Batch
unfolding play_movement
trigger_client_added v cid reason b =
    if cid == v.own
    then b
    else if is_subscription reason
    then b
    else elim (lookup cid v.book.clients) [
      | none ↦ b
      | some c ↦
          if is_here v.own_channel c.channel then play_movement cid (added_sound reason) b else b
    ]

abbrev pub away_sound : Option Reason → ℕ
away_sound (some kick_channel) = Kind.neutral_kicked_ch_away
away_sound (some moved) = Kind.neutral_moved_away
away_sound _ = Kind.neutral_away_from_current

abbrev pub to_sound : Option Reason → ℕ
to_sound (some kick_channel) = Kind.neutral_kicked_ch_to_current
to_sound (some moved) = Kind.neutral_moved_to_current
to_sound _ = Kind.neutral_to_current

-- The sound of another client's move from a channel to a channel.
abbrev pub move_sound : Option ℕ → ℕ → ℕ → Option Reason → Option ℕ
move_sound own_channel from to reason =
    if is_here own_channel from && not (is_here own_channel to)
    then some (away_sound reason)
    else if not (is_here own_channel from) && is_here own_channel to
    then some (to_sound reason)
    else none

abbrev pub by_other : ℕ → Option Invoker → Bool
by_other own none = false
by_other own (some inv) = not (inv.invoker_id == own)

abbrev pub records_in : ℕ → ℕ → Table BookClient → Bool
records_in own channel clients =
    any (λ e. not (e.1.id == own) && (e.1.channel == channel) && e.1.is_recording) clients

abbrev pub is_kick_channel : Option Reason → Bool
is_kick_channel (some kick_channel) = true
is_kick_channel _ = false

-- The own client changed its channel; one that records there is announced first.
unfoldable pub trigger_own_move : View → ℕ → Option Invoker → Option Reason → Batch → Batch
trigger_own_move v to invoker reason b =
    if is_kick_channel reason
    then play Kind.you_kicked_channel b
    else play (if by_other v.own invoker then Kind.you_were_moved else Kind.channel_switched)
        (if records_in v.own to v.book.clients then play Kind.neutral_recording_active b else b)

abbrev pub moved_client : View → ℕ → ℕ → Option Invoker → Option Reason → BookClient → Batch → Batch
unfolding trigger_own_move play_movement
moved_client v cid from invoker reason c b =
    if from == c.channel
    then b
    else if cid == v.own
    then trigger_own_move v c.channel invoker reason b
    else play_movement cid (move_sound v.own_channel from c.channel reason) b

unfoldable pub trigger_client_moved :
    View → ℕ → PropertyValue → Option Invoker → Option Reason → Batch → Batch
unfolding trigger_own_move play_movement
trigger_client_moved v cid (value_channel_id from) invoker reason b =
    elim (lookup cid v.book.clients) [
      | none ↦ b
      | some c ↦ moved_client v cid from invoker reason c b
    ]
trigger_client_moved v cid _ invoker reason b = b

abbrev pub recording_changed : View → ℕ → BookClient → PropertyValue → Batch → Batch
recording_changed v cid c (value_bool old_rec) b =
    if cid == v.own
    then b
    else if not (is_here v.own_channel c.channel)
    then b
    else if c.is_recording
    then if old_rec then b else play Kind.neutral_recording_started b
    else if old_rec
    then play Kind.neutral_recording_stopped b
    else b
recording_changed v cid c _ b = b

unfoldable pub trigger_recording : View → ℕ → PropertyValue → Batch → Batch
trigger_recording v cid old b = elim (lookup cid v.book.clients) [
  | none ↦ b
  | some c ↦ recording_changed v cid c old b
]

-- The own client's microphone, speakers, away state and channel group, echoed by the server.
abbrev pub switch_sound : (BookClient → Bool) → ℕ → ℕ → Option BookClient → Option ℕ
switch_sound field on off none = none
switch_sound field on off (some c) = if field c then some on else some off

abbrev pub away_state_sound : Option BookClient → ℕ
away_state_sound none = Kind.away_deactivated
away_state_sound (some c) =
    if is_some c.away_message then Kind.away_activated else Kind.away_deactivated

abbrev pub real_invoker : ℕ → Option Invoker → Bool
real_invoker own none = false
real_invoker own (some inv) = not (inv.invoker_id == own) && not (inv.invoker_id == 0)

unfoldable pub trigger_own_state : View → PropertyId → Option Invoker → Batch → Batch
trigger_own_state v (client_input_muted cid) invoker b =
    if cid == v.own
    then play_opt
        (switch_sound (λ c. c.input_muted) Kind.mic_muted Kind.mic_activated
          (lookup cid v.book.clients))
        b
    else b
trigger_own_state v (client_output_muted cid) invoker b =
    if cid == v.own
    then play_opt
        (switch_sound (λ c. c.output_muted) Kind.sound_muted Kind.sound_resumed
          (lookup cid v.book.clients))
        b
    else b
trigger_own_state v (client_away_message cid) invoker b =
    if cid == v.own then play (away_state_sound (lookup cid v.book.clients)) b else b
trigger_own_state v (client_channel_group cid) invoker b =
    if cid == v.own
    then if real_invoker v.own invoker then play Kind.channelgroup_changed b else b
    else b
trigger_own_state v _ invoker b = b

abbrev pub removed_sound : Option Reason → Option ℕ
removed_sound (some lost_connection) = some Kind.neutral_conn_lost
removed_sound (some kick_channel) = some Kind.neutral_kicked_ch_away
removed_sound (some kick_server) = some Kind.neutral_kicked_server
removed_sound (some kick_server_ban) = some Kind.neutral_banned_server
removed_sound (some moved) = some Kind.neutral_moved_away
removed_sound (some no_reason) = some Kind.neutral_conn_disconnected
removed_sound (some clientdisconnect) = some Kind.neutral_conn_disconnected
removed_sound _ = none

abbrev pub suppress : Batch → Batch
suppress b = record b { world = record b.world { sfx_suppress_disconnect = true } }

-- The own client left the view: a kick or a ban sounds, and one from the server keeps the end of
-- the connection quiet.
unfoldable pub trigger_own_removed : Option Reason → Batch → Batch
trigger_own_removed (some kick_channel) b = play Kind.you_kicked_channel b
trigger_own_removed (some kick_server) b = play Kind.you_kicked_server (suppress b)
trigger_own_removed (some kick_server_ban) b = play Kind.you_were_banned (suppress b)
trigger_own_removed _ b = b

unfoldable pub trigger_client_removed : View → ℕ → PropertyValue → Option Reason → Batch → Batch
unfolding trigger_own_removed play_movement
trigger_client_removed v cid (value_client removed) reason b =
    if cid == v.own
    then trigger_own_removed reason b
    else if is_here v.own_channel removed.channel
    then play_movement cid (removed_sound reason) b
    else b
trigger_client_removed v cid _ reason b = b

unfoldable pub trigger_changed :
    View → PropertyId → PropertyValue → Option Invoker → Option Reason → Batch → Batch
unfolding trigger_client_moved trigger_recording trigger_own_state play_once
trigger_changed v (client_channel cid) old invoker reason b =
    trigger_client_moved v cid old invoker reason b
trigger_changed v (client_is_recording cid) old invoker reason b = trigger_recording v cid old b
trigger_changed v (channel_parent c) old invoker reason b = play_once Kind.channel_moved b
trigger_changed v (channel_edit e c) old invoker reason b = play_once Kind.channel_edited b
trigger_changed v id old invoker reason b = trigger_own_state v id invoker b

-- The `match` on an event, for a view that has an own client.
unfoldable pub trigger : View → Event → Batch → Batch
unfolding trigger_message trigger_client_added trigger_changed trigger_client_removed
trigger v (message target invoker text) b = trigger_message v target invoker b
trigger v (property_added (id_client cid) invoker reason) b = trigger_client_added v cid reason b
trigger v (property_added (id_channel c) (some invoker) reason) b = play Kind.channel_created b
trigger v (property_added _ invoker reason) b = b
trigger v (property_changed id old invoker reason) b = trigger_changed v id old invoker reason b
trigger v (property_removed (id_client cid) old reason) b =
    trigger_client_removed v cid old reason b
trigger v (property_removed (id_channel c) old reason) b = play Kind.channel_deleted b
trigger v (property_removed _ old reason) b = b

unfoldable pub maybe_trigger_sfx : View → Event → Batch → Batch
unfolding trigger
maybe_trigger_sfx v event b = if b.world.sfx_armed then trigger v event b else b
