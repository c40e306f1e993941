-- ===== src/Model/Roster.antt =====
-- The roster types for Dart of native/src/lib.rs. Unsigned machine integers are numbers; an f32
-- is its bit pattern (`f32::to_bits`), so that values are data and the arithmetic on them is a
-- parameter of the code that computes.
use nek.Common.{ℕ, Bool, Option, List}
use nek.Common.Text.{Text}

-- A signed machine integer; `negsuc n` is -(n + 1).
pub data ℤ : Type 0 where
  pos : ℕ → ℤ
  negsuc : ℕ → ℤ

abbrev pub F32 : Type 0
F32 = ℕ

pub record TsChannel : Type 0 where
  pub id : ℕ
  pub name : Text
  pub parent_id : ℕ
  pub topic : Text
  pub has_password : Bool
  pub client_count : ℕ
  pub order : ℕ
  pub is_default : Bool
  pub permission_hints : ℕ
  pub needed_talk_power : ℤ

pub record TsServerGroup : Type 0 where
  pub id : ℕ
  pub name : Text
  pub is_permanent : Bool
  pub needed_member_add_power : ℤ
  pub needed_member_remove_power : Option ℤ
  pub sort_id : ℤ

pub record TsChannelGroup : Type 0 where
  pub id : ℕ
  pub name : Text
  pub is_permanent : Bool
  pub needed_member_add_power : ℤ
  pub needed_member_remove_power : Option ℤ
  pub sort_id : ℤ

pub record TsPerm : Type 0 where
  pub name : Text
  pub value : ℤ
  pub negated : Bool
  pub skip : Bool

pub record TsClient : Type 0 where
  pub id : ℕ
  pub nickname : Text
  pub channel_id : ℕ
  pub away : Bool
  pub input_muted : Bool
  pub output_muted : Bool
  pub is_talking : Bool
  pub volume : F32
  pub uid : Option Text
  pub avatar_hash : Option Text
  pub database_id : ℕ
  pub client_type : ℕ
  pub is_channel_commander : Bool
  pub is_recording : Bool
  pub is_priority_speaker : Bool
  pub talk_power_granted : Bool
  pub talk_power : ℤ
  pub permission_hints : ℕ
  pub server_groups : List ℕ
  pub server_group_names : List Text
  pub channel_group : ℕ
