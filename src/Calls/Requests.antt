-- ===== src/Calls/Requests.antt =====
-- The calls that queue one command. Those that predate `try_send_cmd` write its two tests out.
use nek.Common.{ℕ, ◌%◌, ◌^◌, Bool, not, Option, none, some, List, is_empty, if◌then◌else◌, ◌==◌}
use nek.Common.Text.{Text}
use nek.Model.{
  World, ℤ, F32, send_message, move_channel, set_muted, set_away, send_poke, kick_client,
  ban_client, server_group_add_client, server_group_del_client, channel_group_set,
  channel_group_clear, grant_channel_perm, revoke_channel_perm, grant_server_perm,
  revoke_server_perm, refresh_groups, send_audio,
}
use nek.Calls.Queue.{read_cstr, non_empty, send_cmd, as_u8, try_send_cmd}

abbrev pub flag : ℕ → Bool
flag n = not (n == 0)

unfoldable pub ts_send_channel_message : ℕ → Text → World → World × ℕ
unfolding send_cmd
ts_send_channel_message cid msg w =
    if w.state.connected then as_u8 (send_cmd (send_message 2 0 msg) w) else (w, 0)

abbrev pub optional_password : Option Text → Option Text
optional_password none = none
optional_password (some s) = non_empty s

unfoldable pub ts_move_to_channel : ℕ → Option Text → World → World × ℕ
unfolding send_cmd
ts_move_to_channel cid password w =
    if w.state.connected
    then as_u8 (
        send_cmd
          (move_channel (w.state.own_client_id % 2 ^ 16) cid (optional_password password) none) w)
    else (w, 0)

unfoldable pub ts_set_muted : ℕ → ℕ → World → World × ℕ
unfolding send_cmd
ts_set_muted inp out w =
    if w.state.connected then as_u8 (send_cmd (set_muted (flag inp) (flag out)) w) else (w, 0)

unfoldable pub ts_send_audio : List F32 → World → World × ℕ
unfolding send_cmd
ts_send_audio samples w =
    if w.state.connected
    then if is_empty samples then (w, 0) else as_u8 (send_cmd (send_audio samples) w)
    else (w, 0)

unfoldable pub ts_set_away : ℕ → World → World × ℕ
unfolding send_cmd
ts_set_away away w = if w.state.connected then as_u8 (send_cmd (set_away (flag away)) w) else (w, 0)

unfoldable pub ts_send_poke : ℕ → Option Text → World → World × ℕ
unfolding send_cmd
ts_send_poke client_id msg w =
    if w.state.connected then as_u8 (send_cmd (send_poke client_id (read_cstr msg)) w) else (w, 0)

unfoldable pub ts_kick_client : ℕ → ℕ → Option Text → Option Text → World → World × ℕ
unfolding send_cmd
ts_kick_client client_id from_server reason token w =
    let cmd =
      kick_client client_id (flag from_server) (read_cstr reason) (non_empty (read_cstr token)) in
    if w.state.connected then as_u8 (send_cmd cmd w) else (w, 0)

unfoldable pub ts_ban_client : ℕ → ℕ → Option Text → Option Text → World → World × ℕ
unfolding send_cmd
ts_ban_client client_id time_seconds reason token w =
    let cmd = ban_client client_id time_seconds (read_cstr reason) (non_empty (read_cstr token)) in
    if w.state.connected then as_u8 (send_cmd cmd w) else (w, 0)

unfoldable pub ts_move_client : ℕ → ℕ → Option Text → Option Text → World → World × ℕ
unfolding send_cmd
ts_move_client client_id channel_id password token w =
    let cmd =
      move_channel client_id channel_id (optional_password password)
        (non_empty (read_cstr token)) in
    if w.state.connected then as_u8 (send_cmd cmd w) else (w, 0)

unfoldable pub ts_refresh_groups : World → World × ℕ
unfolding try_send_cmd
ts_refresh_groups w = as_u8 (try_send_cmd refresh_groups w)

unfoldable pub ts_server_group_add_client : ℕ → ℕ → Option Text → World → World × ℕ
unfolding try_send_cmd
ts_server_group_add_client dbid sgid token w =
    as_u8 (try_send_cmd (server_group_add_client sgid dbid (read_cstr token)) w)

unfoldable pub ts_server_group_del_client : ℕ → ℕ → Option Text → World → World × ℕ
unfolding try_send_cmd
ts_server_group_del_client dbid sgid token w =
    as_u8 (try_send_cmd (server_group_del_client sgid dbid (read_cstr token)) w)

unfoldable pub ts_channel_group_set : ℕ → ℕ → ℕ → Option Text → World → World × ℕ
unfolding try_send_cmd
ts_channel_group_set dbid cid cgid token w =
    as_u8 (try_send_cmd (channel_group_set cgid cid dbid (read_cstr token)) w)

unfoldable pub ts_channel_group_clear : ℕ → ℕ → Option Text → World → World × ℕ
unfolding try_send_cmd
ts_channel_group_clear dbid cid token w =
    as_u8 (try_send_cmd (channel_group_clear cid dbid (read_cstr token)) w)

unfoldable pub ts_channel_perm_grant : ℕ → ℕ → Option Text → ℤ → Option Text → World → World × ℕ
unfolding try_send_cmd
ts_channel_perm_grant dbid cid permsid value token w =
    as_u8 (try_send_cmd (grant_channel_perm cid dbid (read_cstr permsid) value (read_cstr token)) w)

unfoldable pub ts_channel_perm_revoke : ℕ → ℕ → Option Text → Option Text → World → World × ℕ
unfolding try_send_cmd
ts_channel_perm_revoke dbid cid permsid token w =
    as_u8 (try_send_cmd (revoke_channel_perm cid dbid (read_cstr permsid) (read_cstr token)) w)

unfoldable pub ts_server_perm_grant : ℕ → Option Text → ℤ → Option Text → World → World × ℕ
unfolding try_send_cmd
ts_server_perm_grant dbid permsid value token w =
    as_u8 (try_send_cmd (grant_server_perm dbid (read_cstr permsid) value (read_cstr token)) w)

unfoldable pub ts_server_perm_revoke : ℕ → Option Text → Option Text → World → World × ℕ
unfolding try_send_cmd
ts_server_perm_revoke dbid permsid token w =
    as_u8 (try_send_cmd (revoke_server_perm dbid (read_cstr permsid) (read_cstr token)) w)
