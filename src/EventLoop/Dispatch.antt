-- ===== src/EventLoop/Dispatch.antt =====
-- One command, and the top of an iteration of the loop.
use nek.Common.{ℕ, ◌-◌, Bool, true, false, List, [], ◌∷◌, filter, if◌then◌else◌, ltb}
use nek.Model.{World, Command}
use nek.Model
use nek.EventLoop.Env.{Env}
use nek.EventLoop.Moderation.{
  on_send_message, on_move_channel, on_set_muted, on_set_away, on_send_poke, on_kick_client,
  on_ban_client,
}
use nek.EventLoop.Permissions.{
  on_server_group_add_client, on_server_group_del_client, on_channel_group_set,
  on_channel_group_clear, on_grant_channel_perm, on_revoke_channel_perm, on_grant_server_perm,
  on_revoke_server_perm, on_refresh_groups, on_own_perm_list,
}
use nek.EventLoop.Files.{on_ft_list, on_ft_create_dir, on_ft_delete, on_ft_download, on_ft_upload}
use nek.EventLoop.Voice.{VoiceOps, on_send_audio}
use nek.EventLoop.Ending.{end_by_flag, end_by_command}

-- The `match` on a command; the loop returns after `disconnect`.
unfoldable pub handle_command : VoiceOps → ℕ → Env → Command → World → World
handle_command v g env (Model.send_message mode cid message) w = on_send_message env message w
handle_command v g env (Model.move_channel client_id channel_id password token) w =
    on_move_channel env client_id channel_id password token w
handle_command v g env (Model.set_muted input output) w = on_set_muted input output w
handle_command v g env (Model.set_away away) w = on_set_away away w
handle_command v g env (Model.send_poke client_id message) w = on_send_poke client_id message w
handle_command v g env (Model.kick_client client_id from_server reason token) w =
    on_kick_client env client_id from_server reason token w
handle_command v g env (Model.ban_client client_id time_seconds reason token) w =
    on_ban_client env client_id time_seconds reason token w
handle_command v g env (Model.server_group_add_client sgid dbid token) w =
    on_server_group_add_client env sgid dbid token w
handle_command v g env (Model.server_group_del_client sgid dbid token) w =
    on_server_group_del_client env sgid dbid token w
handle_command v g env (Model.channel_group_set cgid cid dbid token) w =
    on_channel_group_set env cgid cid dbid token w
handle_command v g env (Model.channel_group_clear cid dbid token) w =
    on_channel_group_clear env cid dbid token w
handle_command v g env (Model.grant_channel_perm cid dbid permsid value token) w =
    on_grant_channel_perm env cid dbid permsid value token w
handle_command v g env (Model.revoke_channel_perm cid dbid permsid token) w =
    on_revoke_channel_perm env cid dbid permsid token w
handle_command v g env (Model.grant_server_perm dbid permsid value token) w =
    on_grant_server_perm env dbid permsid value token w
handle_command v g env (Model.revoke_server_perm dbid permsid token) w =
    on_revoke_server_perm env dbid permsid token w
handle_command v g env Model.refresh_groups w = on_refresh_groups w
handle_command v g env Model.own_perm_list w = on_own_perm_list w
handle_command v g env Model.disconnect w = end_by_command g w
handle_command v g env (Model.send_audio samples) w = on_send_audio v samples w
handle_command v g env (Model.ft_list cid path password token) w =
    on_ft_list env cid path password token w
handle_command v g env (Model.ft_create_dir cid dirname password token) w =
    on_ft_create_dir env cid dirname password token w
handle_command v g env (Model.ft_delete cid names password token) w =
    on_ft_delete env cid names password token w
handle_command v g env (Model.ft_download cid path password task_id) w =
    on_ft_download env cid path password task_id w
handle_command v g env (Model.ft_upload cid path password task_id) w =
    on_ft_upload env cid path password task_id w

-- Who fell silent two seconds ago is forgotten, and a swipe becomes the user's flag.
unfoldable pub loop_top : ℕ → World → World
loop_top now w =
    let v : World = record w {
      state = record w.state {
        talking_clients = filter (λ e. ltb (now - e.1) 2000) w.state.talking_clients;
      };
    } in
    if v.swipe_disconnect
    then record v {
      state = record v.state { disconnect_requested = true };
      swipe_disconnect = false;
    }
    else v

-- The first half of an iteration: the new state, and whether the loop returned.
unfoldable pub begin_iteration : ℕ → ℕ → World → World × Bool
unfolding loop_top end_by_flag
begin_iteration now generation w =
    let v = loop_top now w in
    if v.state.disconnect_requested then (end_by_flag generation v, true) else (v, false)

abbrev pub is_disconnect : Command → Bool
is_disconnect Model.disconnect = true
is_disconnect _ = false

-- The commands that `try_recv` gives, each with what it meets outside; `disconnect` ends the loop.
unfoldable pub drain_commands : VoiceOps → ℕ → List (Env × Command) → World → World × Bool
unfolding handle_command
drain_commands v g [] w = (w, false)
drain_commands v g ((env, c) ∷ cs) w =
    let rest = drain_commands v g cs (handle_command v g env c w) in
    if is_disconnect c then (handle_command v g env c w, true) else rest
