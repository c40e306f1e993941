-- ===== src/EventLoop/Moderation.antt =====
-- The commands on one client or on the own client: messages, moves, mute, away, pokes, kicks
-- and bans.
use nek.Common.{
  ℕ, Bool, true, false, ◌&&◌, Option, none, some, ◌++◌, is_empty, if◌then◌else◌, ltb, ◌==◌,
}
use nek.Common.Text.{Text, lit, decimal}
use nek.Model.{
  World, kick_server, kick_channel, OutMessage, out_text_message, out_client_move, out_update_muted,
  out_update_away, out_client_poke, out_client_kick, out_ban_client, perm_op, push_event, push_diag,
  transmit,
}
use nek.Sound.{push_sfx}
use nek.Sound.Kind.{chat_outbound}
use nek.EventLoop.Env.{Env, is_sent}
use nek.EventLoop.Permissions.{perm_op_send}

-- The live id of the book, which also refreshes the cache; the cached id if there is no book.
unfoldable pub own_client_id_or_cache : Option ℕ → World → World × ℕ
own_client_id_or_cache none w = (w, w.state.own_client_id)
own_client_id_or_cache (some own) w =
    (if own == 0 then w else record w { state = record w.state { own_client_id = own } }, own)

abbrev pub encode : (Text → Text) → Option Text → Option Text
encode f none = none
encode f (some p) = some (f p)

-- With a token the answer is tracked; without one only a failed send leaves a trace.
unfoldable pub report_back : Env → Text → Option Text → World → World
unfolding perm_op_send push_diag
report_back env what (some t) w = perm_op_send env.answer t w
report_back env what none w =
    if is_sent env.answer then w else push_diag (what ++ lit ": send failed") w

-- A command that is not carried out fails its token, if it has one.
abbrev pub refuse : Option Text → Text → World → World
refuse none why w = w
refuse (some t) why w = push_event (perm_op t false (some why)) w

unfoldable pub on_send_message : Env → Text → World → World
unfolding push_sfx
on_send_message env message w =
    let v : World = transmit (out_text_message message) w in
    if is_sent env.answer then push_sfx chat_outbound v else v

abbrev pub arm_move : Bool → ℕ → ℕ → World → World
arm_move true channel_id now w = record w {
  state = record w.state { pending_move = some (channel_id, now) };
}
arm_move false channel_id now w = w

unfoldable pub on_move_channel : Env → ℕ → ℕ → Option Text → Option Text → World → World
unfolding own_client_id_or_cache report_back
on_move_channel env client_id channel_id password token w =
    let (v, own) = own_client_id_or_cache env.book_own w in
    report_back env (lit "move client " ++ decimal client_id) token (
      transmit (out_client_move client_id channel_id (encode env.encode_password password))
        (arm_move (client_id == own) channel_id env.now v))

unfoldable pub on_set_muted : Bool → Bool → World → World
on_set_muted input output w = transmit (out_update_muted input output) w

unfoldable pub on_set_away : Bool → World → World
on_set_away away w = transmit (out_update_away away (if away then some (lit "Away") else none)) w

unfoldable pub on_send_poke : ℕ → Text → World → World
on_send_poke client_id message w = transmit (out_client_poke client_id message) w

abbrev pub kick_message : ℕ → Bool → Text → OutMessage
kick_message client_id from_server reason =
    out_client_kick client_id (if from_server then kick_server else kick_channel)
      (if is_empty reason then none else some reason)

unfoldable pub on_kick_client : Env → ℕ → Bool → Text → Option Text → World → World
unfolding own_client_id_or_cache report_back push_diag
on_kick_client env client_id from_server reason token w =
    let (v, own) = own_client_id_or_cache env.book_own w in
    if client_id == own
    then refuse token (lit "cannot kick yourself")
        (push_diag (lit "kick client: skipped (cannot kick self)") v)
    else report_back env (lit "kick client " ++ decimal client_id) token (
        transmit (kick_message client_id from_server reason) (
          push_diag
            (lit "kick client "
              ++ decimal client_id
              ++ lit " (from_server="
              ++ (if from_server then lit "true" else lit "false")
              ++ lit "): sent")
            v))

abbrev pub ban_message : ℕ → ℕ → Text → OutMessage
ban_message client_id time_seconds reason =
    out_ban_client client_id (if ltb 0 time_seconds then some time_seconds else none) (some reason)

unfoldable pub on_ban_client : Env → ℕ → ℕ → Text → Option Text → World → World
unfolding own_client_id_or_cache report_back push_diag
on_ban_client env client_id time_seconds reason token w =
    let (v, own) = own_client_id_or_cache env.book_own w in
    if is_empty reason && time_seconds == 0
    then refuse token (lit "skip: empty reason (permanent ban)")
        (push_diag (lit "ban client: skipped (no reason / permanent-by-accident)") v)
    else if client_id == own
    then refuse token (lit "cannot ban yourself")
        (push_diag (lit "ban client: skipped (cannot ban self)") v)
    else report_back env (lit "ban client " ++ decimal client_id) token (
        transmit (ban_message client_id time_seconds reason) (
          push_diag
            (lit "ban client "
              ++ decimal client_id
              ++ lit " ("
              ++ decimal time_seconds
              ++ lit "s): sent")
            v))
