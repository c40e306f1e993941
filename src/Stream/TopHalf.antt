-- ===== src/Stream/TopHalf.antt =====
-- The transfers over the first half of an iteration: its checks and its commands.
use nek.Common.{ℕ, ◌≡◌, refl, ◌∙◌, arith, List, [], ◌∷◌, inl, inr, Bool-cases}
use nek.Model.{World, Command, push_diag}
use nek.Model
use nek.EventLoop.Env.{Env}
use nek.EventLoop.Moderation.{on_set_muted, on_set_away, on_send_poke}
use nek.EventLoop.Permissions.{
  on_server_group_add_client, on_server_group_del_client, on_channel_group_set,
  on_channel_group_clear, on_grant_channel_perm, on_revoke_channel_perm, on_grant_server_perm,
  on_revoke_server_perm, on_refresh_groups,
}
use nek.EventLoop.Voice.{VoiceOps}
use nek.EventLoop.Dispatch.{
  handle_command, drain_commands, begin_iteration, loop_top, is_disconnect,
}
use nek.Items.Done.{due_endings, endings-append}
use nek.Items.Done.Handlers.{due-on_ft_download, due-on_ft_upload}
use nek.Stream.Commands.{
  due-on_send_message, due-tracked, due-on_move_channel, due-on_kick_client, due-on_ban_client,
  due-on_ft_list, due-on_ft_create_dir, due-on_ft_delete, due-on_own_perm_list,
}
use nek.Stream.Ends.{due-on_send_audio, due-end_by_flag, due-end_by_command}

module _ (id : ℕ) where
  due-on_refresh_groups : (w : World) → due_endings id (on_refresh_groups w) ≡ due_endings id w
  unfolding on_refresh_groups push_diag due_endings
  due-on_refresh_groups w = omega (arith, endings-append)

  due-handle_command :
      (v : VoiceOps) (g : ℕ) (env : Env) (c : Command) (w : World)
      → due_endings id (handle_command v g env c w) ≡ due_endings id w
  unfolding handle_command on_set_muted on_set_away on_send_poke due_endings
      on_server_group_add_client on_server_group_del_client on_channel_group_set
      on_channel_group_clear on_grant_channel_perm on_revoke_channel_perm on_grant_server_perm
      on_revoke_server_perm
  due-handle_command v g env (Model.send_message mode cid m) w = due-on_send_message id env m w
  due-handle_command v g env (Model.move_channel c ch pw t) w =
      due-on_move_channel id env c ch pw t w
  due-handle_command v g env (Model.set_muted input output) w = refl
  due-handle_command v g env (Model.set_away away) w = refl
  due-handle_command v g env (Model.send_poke c m) w = refl
  due-handle_command v g env (Model.kick_client c s r t) w = due-on_kick_client id env c s r t w
  due-handle_command v g env (Model.ban_client c n r t) w = due-on_ban_client id env c n r t w
  due-handle_command v g env (Model.server_group_add_client sg db t) w = due-tracked id env _ t w
  due-handle_command v g env (Model.server_group_del_client sg db t) w = due-tracked id env _ t w
  due-handle_command v g env (Model.channel_group_set cg c db t) w = due-tracked id env _ t w
  due-handle_command v g env (Model.channel_group_clear c db t) w = due-tracked id env _ t w
  due-handle_command v g env (Model.grant_channel_perm c db p n t) w = due-tracked id env _ t w
  due-handle_command v g env (Model.revoke_channel_perm c db p t) w = due-tracked id env _ t w
  due-handle_command v g env (Model.grant_server_perm db p n t) w = due-tracked id env _ t w
  due-handle_command v g env (Model.revoke_server_perm db p t) w = due-tracked id env _ t w
  due-handle_command v g env Model.refresh_groups w = due-on_refresh_groups w
  due-handle_command v g env Model.own_perm_list w = due-on_own_perm_list id w
  due-handle_command v g env Model.disconnect w = due-end_by_command id g w
  due-handle_command v g env (Model.send_audio samples) w = due-on_send_audio id v samples w
  due-handle_command v g env (Model.ft_list c p pw t) w = due-on_ft_list id env c p pw t w
  due-handle_command v g env (Model.ft_create_dir c d pw t) w =
      due-on_ft_create_dir id env c d pw t w
  due-handle_command v g env (Model.ft_delete c ns pw t) w = due-on_ft_delete id env c ns pw t w
  due-handle_command v g env (Model.ft_download c p pw k) w = due-on_ft_download id env c p pw k w
  due-handle_command v g env (Model.ft_upload c p pw k) w = due-on_ft_upload id env c p pw k w

  pub due-drain_commands :
      (v : VoiceOps) (g : ℕ) (cs : List (Env × Command)) (w : World)
      → due_endings id (drain_commands v g cs w).0 ≡ due_endings id w
  unfolding drain_commands
  due-drain_commands v g [] w = refl
  due-drain_commands v g ((env, c) ∷ cs) w = elim (Bool-cases (is_disconnect c)) [
    | inl e ↦ rw e (due-handle_command v g env c w)
    | inr e ↦
        rw e
          (due-drain_commands v g cs (handle_command v g env c w) ∙ due-handle_command v g env c w)
  ]

  due-loop_top : (now : ℕ) (w : World) → due_endings id (loop_top now w) ≡ due_endings id w
  unfolding loop_top due_endings
  due-loop_top now w = elim (Bool-cases w.swipe_disconnect) [
    | inl e ↦ simp e refl
    | inr e ↦ simp e refl
  ]

  pub due-begin_iteration :
      (now g : ℕ) (w : World) → due_endings id (begin_iteration now g w).0 ≡ due_endings id w
  unfolding begin_iteration
  due-begin_iteration now g w = elim (Bool-cases (loop_top now w).state.disconnect_requested) [
    | inl e ↦ simp e (due-end_by_flag id g (loop_top now w) ∙ due-loop_top now w)
    | inr e ↦ simp e (due-loop_top now w)
  ]
