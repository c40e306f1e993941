-- ===== src/Model/Wire.antt =====
-- What the code hands to the connection library and gets back. The library itself is a third
-- party's: the outcome of a send is an argument wherever the code sends.
use nek.Common.{ℕ, Bool, Option, List}
use nek.Common.Text.{Text}
use nek.Model.Roster.{ℤ}

-- `Reason` of the library, as far as the code tells its values apart.
pub data Reason : Type 0 where
  no_reason moved subscription lost_connection kick_channel kick_server : Reason
  kick_server_ban clientdisconnect other_reason : Reason

-- An argument of a command that the code builds by hand.
pub data Arg : Type 0 where
  num : ℕ → Arg
  text : Text → Arg

-- A request on the connection.
pub data OutMessage : Type 0 where
  -- a text message to the own channel
  out_text_message : Text → OutMessage
  -- client_id, channel_id, channel_password
  out_client_move : ℕ → ℕ → Option Text → OutMessage
  -- input_muted, output_muted
  out_update_muted : Bool → Bool → OutMessage
  -- is_away, away_message
  out_update_away : Bool → Option Text → OutMessage
  -- client_id, message
  out_client_poke : ℕ → Text → OutMessage
  -- client_id, reason, reason_message
  out_client_kick : ℕ → Reason → Option Text → OutMessage
  -- client_id, time, ban_reason
  out_ban_client : ℕ → Option ℕ → Option Text → OutMessage
  -- server_group_id, client_db_id
  out_server_group_add_client : ℕ → ℕ → OutMessage
  out_server_group_del_client : ℕ → ℕ → OutMessage
  -- channel_id, client_db_id, permission_name_id, permission_value
  out_channel_client_add_perm : ℕ → ℕ → Text → ℤ → OutMessage
  -- channel_id, client_db_id, permission_name_id
  out_channel_client_del_perm : ℕ → ℕ → Text → OutMessage
  -- client_db_id, permission_name_id, permission_value, permission_skip
  out_client_add_perm : ℕ → Text → ℤ → Bool → OutMessage
  -- client_db_id, permission_name_id
  out_client_del_perm : ℕ → Text → OutMessage
  out_subscribe_all : OutMessage
  out_server_group_list_request : OutMessage
  out_channel_group_list_request : OutMessage
  -- client_db_id
  out_client_perm_list_request : ℕ → OutMessage
  -- a command built by hand: its name, and the arguments of each part
  raw_cmd : Text → List (List (Text × Arg)) → OutMessage
  -- an audio packet: its id, and the encoded frame
  out_audio : ℕ → List ℕ → OutMessage
  -- the disconnect handshake, the events that follow it drained
  out_disconnect : OutMessage

-- The result of `send_with_result`: the handle of the return code, or the error's text.
pub data SendResult : Type 0 where
  handle : ℕ → SendResult
  failed : Text → SendResult

-- A `TsError`: its number, and the name that `{:?}` shows.
pub record TsError : Type 0 where
  pub code : ℕ
  pub debug : Text

-- The numbers of three errors in the protocol's table.
abbrev pub error_ok : ℕ
error_ok = 0

abbrev pub channel_invalid_password : ℕ
channel_invalid_password = 0x30d
