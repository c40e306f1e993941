-- ===== src/Model/Event.antt =====
-- `TsEvent` of native/src/lib.rs: what Dart polls.
use nek.Common.{ℕ, Bool, Option, List}
use nek.Common.Text.{Text}
use nek.Model.Transfer.{TsFtEntry}

pub data TsEvent : Type 0 where
  -- server_name, client_id
  connected : Text → ℕ → TsEvent
  -- reason
  disconnected : Text → TsEvent
  -- from_client, from_client_id, target_mode, message
  text_message : Text → ℕ → ℕ → Text → TsEvent
  -- from_client, from_client_id, message
  poke : Text → ℕ → Text → TsEvent
  -- client_id, nickname, channel_id
  client_joined : ℕ → Text → ℕ → TsEvent
  -- client_id, nickname
  client_left : ℕ → Text → TsEvent
  channels_updated : TsEvent
  diag : Text → TsEvent
  -- channel_id
  move_rejected : ℕ → TsEvent
  error : Text → TsEvent
  -- token, ok, error
  ft_op : Text → Bool → Option Text → TsEvent
  -- token, entries, error
  ft_listing : Text → List TsFtEntry → Option Text → TsEvent
  -- task_id, kind, name, total
  ft_started : ℕ → ℕ → Text → ℕ → TsEvent
  -- task_id, transferred
  ft_progress : ℕ → ℕ → TsEvent
  -- task_id, ok, transferred, error
  ft_done : ℕ → Bool → ℕ → Option Text → TsEvent
  -- token, ok, error
  perm_op : Text → Bool → Option Text → TsEvent
