-- ===== src/Calls/Delivery.antt =====
-- What becomes of a call that queues one command and does nothing else; the calls on files and the
-- calls to disconnect do more.
use nek.Common.{
  ℕ, ◌%◌, ◌^◌, ◌≡◌, refl, Bool, true, false, Option, none, some, List, ◌∷◌, if◌then◌else◌,
}
use nek.Common.Text.{Text}
use nek.Model.{
  World, Command, CommandQueue, ℤ, F32, send_message, move_channel, set_muted, set_away, send_poke,
  kick_client, ban_client, server_group_add_client, server_group_del_client, channel_group_set,
  channel_group_clear, grant_channel_perm, revoke_channel_perm, grant_server_perm,
  revoke_server_perm, refresh_groups, send_audio,
}
use nek.Calls.Queue.{read_cstr, non_empty, enqueue, send_cmd, as_u8, try_send_cmd}
use nek.Calls.Requests.{
  flag, optional_password, ts_send_channel_message, ts_move_to_channel, ts_set_muted, ts_send_audio,
  ts_set_away, ts_send_poke, ts_kick_client, ts_ban_client, ts_move_client, ts_refresh_groups,
  ts_server_group_add_client, ts_server_group_del_client, ts_channel_group_set,
  ts_channel_group_clear, ts_channel_perm_grant, ts_channel_perm_revoke, ts_server_perm_grant,
  ts_server_perm_revoke,
}

-- A call from Dart, with its arguments.
pub data Request : Type 0 where
  channel_message : ℕ → Text → Request
  move_to_channel : ℕ → Option Text → Request
  muted : ℕ → ℕ → Request
  audio : F32 → List F32 → Request
  away : ℕ → Request
  poke_client : ℕ → Option Text → Request
  kick : ℕ → ℕ → Option Text → Option Text → Request
  ban : ℕ → ℕ → Option Text → Option Text → Request
  move_client : ℕ → ℕ → Option Text → Option Text → Request
  groups : Request
  add_to_server_group remove_from_server_group : ℕ → ℕ → Option Text → Request
  set_channel_group : ℕ → ℕ → ℕ → Option Text → Request
  clear_channel_group : ℕ → ℕ → Option Text → Request
  grant_in_channel : ℕ → ℕ → Option Text → ℤ → Option Text → Request
  revoke_in_channel : ℕ → ℕ → Option Text → Option Text → Request
  grant_on_server : ℕ → Option Text → ℤ → Option Text → Request
  revoke_on_server : ℕ → Option Text → Option Text → Request

unfoldable pub call : Request → World → World × ℕ
unfolding ts_send_channel_message ts_move_to_channel ts_set_muted ts_send_audio ts_set_away
    ts_send_poke ts_kick_client ts_ban_client ts_move_client ts_refresh_groups
    ts_server_group_add_client ts_server_group_del_client ts_channel_group_set
    ts_channel_group_clear ts_channel_perm_grant ts_channel_perm_revoke ts_server_perm_grant
    ts_server_perm_revoke
call (channel_message cid msg) w = ts_send_channel_message cid msg w
call (move_to_channel cid pw) w = ts_move_to_channel cid pw w
call (muted inp out) w = ts_set_muted inp out w
call (audio s samples) w = ts_send_audio (s ∷ samples) w
call (away a) w = ts_set_away a w
call (poke_client c msg) w = ts_send_poke c msg w
call (kick c s reason token) w = ts_kick_client c s reason token w
call (ban c time reason token) w = ts_ban_client c time reason token w
call (move_client c cid pw token) w = ts_move_client c cid pw token w
call groups w = ts_refresh_groups w
call (add_to_server_group dbid sgid token) w = ts_server_group_add_client dbid sgid token w
call (remove_from_server_group dbid sgid token) w = ts_server_group_del_client dbid sgid token w
call (set_channel_group dbid cid cgid token) w = ts_channel_group_set dbid cid cgid token w
call (clear_channel_group dbid cid token) w = ts_channel_group_clear dbid cid token w
call (grant_in_channel dbid cid perm v token) w = ts_channel_perm_grant dbid cid perm v token w
call (revoke_in_channel dbid cid perm token) w = ts_channel_perm_revoke dbid cid perm token w
call (grant_on_server dbid perm v token) w = ts_server_perm_grant dbid perm v token w
call (revoke_on_server dbid perm token) w = ts_server_perm_revoke dbid perm token w

-- The command that a call stands for; a move of the own client takes its id from the state.
abbrev pub command_of : Request → World → Command
command_of (channel_message cid msg) w = send_message 2 0 msg
command_of (move_to_channel cid pw) w =
    move_channel (w.state.own_client_id % 2 ^ 16) cid (optional_password pw) none
command_of (muted inp out) w = set_muted (flag inp) (flag out)
command_of (audio s samples) w = send_audio (s ∷ samples)
command_of (away a) w = set_away (flag a)
command_of (poke_client c msg) w = send_poke c (read_cstr msg)
command_of (kick c s reason token) w =
    kick_client c (flag s) (read_cstr reason) (non_empty (read_cstr token))
command_of (ban c time reason token) w =
    ban_client c time (read_cstr reason) (non_empty (read_cstr token))
command_of (move_client c cid pw token) w =
    move_channel c cid (optional_password pw) (non_empty (read_cstr token))
command_of groups w = refresh_groups
command_of (add_to_server_group dbid sgid token) w =
    server_group_add_client sgid dbid (read_cstr token)
command_of (remove_from_server_group dbid sgid token) w =
    server_group_del_client sgid dbid (read_cstr token)
command_of (set_channel_group dbid cid cgid token) w =
    channel_group_set cgid cid dbid (read_cstr token)
command_of (clear_channel_group dbid cid token) w = channel_group_clear cid dbid (read_cstr token)
command_of (grant_in_channel dbid cid perm v token) w =
    grant_channel_perm cid dbid (read_cstr perm) v (read_cstr token)
command_of (revoke_in_channel dbid cid perm token) w =
    revoke_channel_perm cid dbid (read_cstr perm) (read_cstr token)
command_of (grant_on_server dbid perm v token) w =
    grant_server_perm dbid (read_cstr perm) v (read_cstr token)
command_of (revoke_on_server dbid perm token) w =
    revoke_server_perm dbid (read_cstr perm) (read_cstr token)

-- The state behind a command that is queued, if the event loop takes commands.
abbrev pub queued : Command → World → Option CommandQueue → Option World
queued cmd w none = none
queued cmd w (some tx) =
    if tx.receiver_alive then some (record w { command_tx = some (enqueue cmd tx) }) else none

abbrev pub delivered : Command → World → Option World
delivered cmd w = if w.state.connected then queued cmd w w.command_tx else none

-- 1 and the new state, or 0 and the old one.
abbrev pub outcome : World → Option World → World × ℕ
outcome w none = (w, 0)
outcome w (some v) = (v, 1)

on_queue :
    (cmd : Command) (w : World) (o : Option CommandQueue)
    → as_u8 (elim o [
      | none ↦ (w, false)
      | some tx ↦
          if tx.receiver_alive
          then (record w { command_tx = some (enqueue cmd tx) }, true)
          else (w, false)
    ])
      ≡ outcome w (queued cmd w o)
on_queue cmd w none = refl
on_queue cmd w (some tx) = on_live tx.receiver_alive
  where
    on_live :
        (b : Bool)
        → as_u8 (if b then (record w { command_tx = some (enqueue cmd tx) }, true) else (w, false))
          ≡ outcome w (if b then some (record w { command_tx = some (enqueue cmd tx) }) else none)
    on_live true = refl
    on_live false = refl

if_connected :
    (cmd : Command) (w : World) (b : Bool)
    → (if b then as_u8 (send_cmd cmd w) else (w, 0))
      ≡ outcome w (if b then queued cmd w w.command_tx else none)
unfolding send_cmd
if_connected cmd w true = on_queue cmd w w.command_tx
if_connected cmd w false = refl

tried :
    (cmd : Command) (w : World) (b : Bool)
    → as_u8 (if b then send_cmd cmd w else (w, false))
      ≡ outcome w (if b then queued cmd w w.command_tx else none)
unfolding send_cmd
tried cmd w true = on_queue cmd w w.command_tx
tried cmd w false = refl

-- Each of the eighteen calls on messages, moves, mute, microphone samples, away, pokes, kicks,
-- bans, groups and permissions either puts exactly its command at the end of the queue, changes
-- nothing else and returns 1, or changes nothing and returns 0; the first just if the client is
-- connected and an event loop holds the other end of the queue. The microphone gives one sample at
-- least.
pub call-outcome : (r : Request) (w : World) → call r w ≡ outcome w (delivered (command_of r w) w)
unfolding call try_send_cmd
call-outcome (channel_message cid msg) w =
    if_connected (command_of (channel_message cid msg) w) w w.state.connected
call-outcome (move_to_channel cid pw) w =
    if_connected (command_of (move_to_channel cid pw) w) w w.state.connected
call-outcome (muted inp out) w = if_connected (command_of (muted inp out) w) w w.state.connected
call-outcome (audio s samples) w = if_connected (command_of (audio s samples) w) w w.state.connected
call-outcome (away a) w = if_connected (command_of (away a) w) w w.state.connected
call-outcome (poke_client c msg) w =
    if_connected (command_of (poke_client c msg) w) w w.state.connected
call-outcome (kick c f reason token) w =
    if_connected (command_of (kick c f reason token) w) w w.state.connected
call-outcome (ban c time reason token) w =
    if_connected (command_of (ban c time reason token) w) w w.state.connected
call-outcome (move_client c cid pw token) w =
    if_connected (command_of (move_client c cid pw token) w) w w.state.connected
call-outcome groups w = tried (command_of groups w) w w.state.connected
call-outcome (add_to_server_group dbid sgid token) w =
    tried (command_of (add_to_server_group dbid sgid token) w) w w.state.connected
call-outcome (remove_from_server_group dbid sgid token) w =
    tried (command_of (remove_from_server_group dbid sgid token) w) w w.state.connected
call-outcome (set_channel_group dbid cid cgid token) w =
    tried (command_of (set_channel_group dbid cid cgid token) w) w w.state.connected
call-outcome (clear_channel_group dbid cid token) w =
    tried (command_of (clear_channel_group dbid cid token) w) w w.state.connected
call-outcome (grant_in_channel dbid cid perm v token) w =
    tried (command_of (grant_in_channel dbid cid perm v token) w) w w.state.connected
call-outcome (revoke_in_channel dbid cid perm token) w =
    tried (command_of (revoke_in_channel dbid cid perm token) w) w w.state.connected
call-outcome (grant_on_server dbid perm v token) w =
    tried (command_of (grant_on_server dbid perm v token) w) w w.state.connected
call-outcome (revoke_on_server dbid perm token) w =
    tried (command_of (revoke_on_server dbid perm token) w) w w.state.connected
