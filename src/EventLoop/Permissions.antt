-- ===== src/EventLoop/Permissions.antt =====
-- Commands whose answer resolves a token: `perm_op_send`, and the commands on server groups,
-- channel groups and permissions.
use nek.Common.{ℕ, false, Option, none, some, [], ◌∷◌, ◌++◌, find, if◌then◌else◌, ◌==◌}
use nek.Common.Text.{Text, lit, decimal}
use nek.Common.Table.{insert}
use nek.Model.{
  World, TsClient, ℤ, SendResult, handle, failed, OutMessage, num, perm_op, push_event, push_diag,
  transmit, raw_cmd, out_server_group_add_client, out_server_group_del_client,
  out_channel_client_add_perm, out_channel_client_del_perm, out_client_add_perm,
  out_client_del_perm, out_server_group_list_request, out_channel_group_list_request,
  out_client_perm_list_request,
}
use nek.EventLoop.Env.{Env}

-- Files the return code under the token, or answers the token at once if the send failed.
unfoldable pub perm_op_send : SendResult → Text → World → World
unfolding push_diag
perm_op_send (handle rc) token w =
    push_diag (lit "perm op " ++ token ++ lit ": sent (rc=" ++ decimal rc ++ lit ")")
      (record w { perm_ops = insert rc token w.perm_ops })
perm_op_send (failed e) token w =
    push_event (perm_op token false (some e))
      (push_diag (lit "perm op " ++ token ++ lit ": send failed: " ++ e) w)

-- Sends a request and files its return code.
abbrev pub tracked : Env → OutMessage → Text → World → World
tracked env m token w = perm_op_send env.answer token (transmit m w)

unfoldable pub on_server_group_add_client : Env → ℕ → ℕ → Text → World → World
unfolding perm_op_send
on_server_group_add_client env sgid dbid token w =
    tracked env (out_server_group_add_client sgid dbid) token w

unfoldable pub on_server_group_del_client : Env → ℕ → ℕ → Text → World → World
unfolding perm_op_send
on_server_group_del_client env sgid dbid token w =
    tracked env (out_server_group_del_client sgid dbid) token w

unfoldable pub on_channel_group_set : Env → ℕ → ℕ → ℕ → Text → World → World
unfolding perm_op_send
on_channel_group_set env cgid cid dbid token w = tracked env packet token w
  where
    packet : OutMessage
    packet =
        raw_cmd (lit "channelgroupaddclient")
          (((lit "cgid", num cgid) ∷ (lit "cid", num cid) ∷ (lit "cldbid", num dbid) ∷ []) ∷ [])

unfoldable pub on_channel_group_clear : Env → ℕ → ℕ → Text → World → World
unfolding perm_op_send
on_channel_group_clear env cid dbid token w = tracked env packet token w
  where
    packet : OutMessage
    packet =
        raw_cmd (lit "channelgroupdelclient")
          (((lit "cid", num cid) ∷ (lit "cldbid", num dbid) ∷ []) ∷ [])

unfoldable pub on_grant_channel_perm : Env → ℕ → ℕ → Text → ℤ → Text → World → World
unfolding perm_op_send
on_grant_channel_perm env cid dbid permsid value token w =
    tracked env (out_channel_client_add_perm cid dbid permsid value) token w

unfoldable pub on_revoke_channel_perm : Env → ℕ → ℕ → Text → Text → World → World
unfolding perm_op_send
on_revoke_channel_perm env cid dbid permsid token w =
    tracked env (out_channel_client_del_perm cid dbid permsid) token w

unfoldable pub on_grant_server_perm : Env → ℕ → Text → ℤ → Text → World → World
unfolding perm_op_send
on_grant_server_perm env dbid permsid value token w =
    tracked env (out_client_add_perm dbid permsid value false) token w

unfoldable pub on_revoke_server_perm : Env → ℕ → Text → Text → World → World
unfolding perm_op_send
on_revoke_server_perm env dbid permsid token w =
    tracked env (out_client_del_perm dbid permsid) token w

unfoldable pub on_refresh_groups : World → World
unfolding push_diag
on_refresh_groups w =
    push_diag (lit "perm: re-requested server/channel group lists")
      (transmit out_channel_group_list_request (transmit out_server_group_list_request w))

abbrev pub dbid_of : Option TsClient → ℕ
dbid_of none = 0
dbid_of (some c) = c.database_id

unfoldable pub on_own_perm_list : World → World
unfolding push_diag
on_own_perm_list w =
    let own_dbid =
      dbid_of (find (λ (c : TsClient). c.id == w.state.own_client_id) w.state.clients) in
    if own_dbid == 0
    then push_diag
        (lit "own clientpermlist: database id unknown yet (own_id="
          ++ decimal w.state.own_client_id
          ++ lit ")")
        w
    else push_diag (lit "own clientpermlist: requested")
        (transmit (out_client_perm_list_request own_dbid) w)
