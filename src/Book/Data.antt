-- ===== src/Book/Data.antt =====
-- The library's book and its events, as far as native/src/api.rs reads them: the clients, the
-- channels and the groups that the connection sees, and what changed of them.
use nek.Common.{ℕ, Bool, Option, List}
use nek.Common.Text.{Text}
use nek.Common.Table.{Table}
use nek.Model.{ℤ, Reason}

-- `ClientType`: a query client says whether it is an admin's.
pub data ClientType : Type 0 where
  normal : ClientType
  query : Bool → ClientType

pub record BookClient : Type 0 where
  pub id : ℕ
  pub name : Text
  pub channel : ℕ
  pub uid : Option Text
  pub avatar_hash : Text
  pub database_id : ℕ
  pub away_message : Option Text
  pub input_muted : Bool
  pub output_muted : Bool
  pub client_type : ClientType
  pub is_channel_commander : Bool
  pub is_recording : Bool
  pub is_priority_speaker : Bool
  pub talk_power_granted : Bool
  pub talk_power : ℤ
  pub permission_hints : Option ℕ
  -- as the set is walked
  pub server_groups : List ℕ
  pub channel_group : ℕ

pub record BookChannel : Type 0 where
  pub id : ℕ
  pub name : Text
  pub parent : ℕ
  pub topic : Option Text
  pub has_password : Option Bool
  pub order : ℕ
  pub is_default : Option Bool
  pub permission_hints : Option ℕ
  pub needed_talk_power : Option ℤ

-- A server group or a channel group.
pub record BookGroup : Type 0 where
  pub id : ℕ
  pub name : Text
  pub is_permanent : Bool
  pub needed_member_add_power : ℤ
  pub needed_member_remove_power : Option ℤ
  pub sort_id : ℤ

pub record Book : Type 0 where
  pub own_client : ℕ
  pub clients : Table BookClient
  pub channels : Table BookChannel
  pub book_server_groups : Table BookGroup
  pub book_channel_groups : Table BookGroup

-- Who caused an event.
pub record Invoker : Type 0 where
  pub invoker_name : Text
  pub invoker_id : ℕ

pub data MessageTarget : Type 0 where
  to_server : MessageTarget
  to_channel : MessageTarget
  to_client : ℕ → MessageTarget
  to_poke : ℕ → MessageTarget

-- What of a channel changed, where the code treats it as an edit.
pub data ChannelEdit : Type 0 where
  channel_name channel_guid channel_topic channel_codec channel_codec_quality : ChannelEdit
  channel_max_clients channel_max_family_clients channel_channel_type : ChannelEdit
  channel_is_default channel_has_password channel_codec_latency_factor : ChannelEdit
  channel_is_unencrypted channel_delete_delay channel_needed_talk_power : ChannelEdit
  channel_forced_silence channel_phonetic_name channel_icon channel_is_private : ChannelEdit
  channel_storage_quota : ChannelEdit

-- `PropertyId`: the part of the book that an event is about, with the id that the code reads.
pub data PropertyId : Type 0 where
  id_client : ℕ → PropertyId
  id_channel : ℕ → PropertyId
  client_channel : ℕ → PropertyId
  client_is_recording : ℕ → PropertyId
  client_input_muted : ℕ → PropertyId
  client_output_muted : ℕ → PropertyId
  client_away_message : ℕ → PropertyId
  client_channel_group : ℕ → PropertyId
  channel_parent : ℕ → PropertyId
  channel_order : ℕ → PropertyId
  channel_subscribed : ℕ → PropertyId
  channel_permission_hints : ℕ → PropertyId
  channel_edit : ChannelEdit → ℕ → PropertyId
  other_property : PropertyId

-- The value that a property had before.
pub data PropertyValue : Type 0 where
  value_channel_id : ℕ → PropertyValue
  value_bool : Bool → PropertyValue
  value_client : BookClient → PropertyValue
  other_value : PropertyValue

pub data Event : Type 0 where
  -- target, invoker, message
  message : MessageTarget → Invoker → Text → Event
  -- id, invoker, reason
  property_added : PropertyId → Option Invoker → Option Reason → Event
  -- id, old, invoker, reason
  property_changed : PropertyId → PropertyValue → Option Invoker → Option Reason → Event
  -- id, old, reason
  property_removed : PropertyId → PropertyValue → Option Reason → Event
