-- ===== src/Model/Commands.antt =====
-- `Command` of native/src/lib.rs: what the calls from Dart queue for the event loop. The
-- arguments stand in the order of the fields of the source.
use nek.Common.{ℕ, Bool, Option, List}
use nek.Common.Text.{Text}
use nek.Model.Roster.{ℤ, F32}

pub data Command : Type 0 where
  -- target_mode, target_cid, message
  send_message : ℕ → ℕ → Text → Command
  -- client_id, channel_id, password, token
  move_channel : ℕ → ℕ → Option Text → Option Text → Command
  -- input, output
  set_muted : Bool → Bool → Command
  set_away : Bool → Command
  -- client_id, message
  send_poke : ℕ → Text → Command
  -- client_id, from_server, reason, token
  kick_client : ℕ → Bool → Text → Option Text → Command
  -- client_id, time_seconds, reason, token
  ban_client : ℕ → ℕ → Text → Option Text → Command
  -- sgid, dbid, token
  server_group_add_client : ℕ → ℕ → Text → Command
  server_group_del_client : ℕ → ℕ → Text → Command
  -- cgid, cid, dbid, token
  channel_group_set : ℕ → ℕ → ℕ → Text → Command
  -- cid, dbid, token
  channel_group_clear : ℕ → ℕ → Text → Command
  -- cid, dbid, permsid, value, token
  grant_channel_perm : ℕ → ℕ → Text → ℤ → Text → Command
  -- cid, dbid, permsid, token
  revoke_channel_perm : ℕ → ℕ → Text → Text → Command
  -- dbid, permsid, value, token
  grant_server_perm : ℕ → Text → ℤ → Text → Command
  -- dbid, permsid, token
  revoke_server_perm : ℕ → Text → Text → Command
  refresh_groups : Command
  own_perm_list : Command
  disconnect : Command
  send_audio : List F32 → Command
  -- cid, path, password, token
  ft_list : ℕ → Text → Option Text → Text → Command
  -- cid, dirname, password, token
  ft_create_dir : ℕ → Text → Option Text → Text → Command
  -- cid, names, password, token
  ft_delete : ℕ → List Text → Option Text → Text → Command
  -- cid, path, password, task_id
  ft_download : ℕ → Text → Option Text → ℕ → Command
  ft_upload : ℕ → Text → Option Text → ℕ → Command
