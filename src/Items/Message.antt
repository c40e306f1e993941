-- ===== src/Items/Message.antt =====
-- `StreamItem::MessageEvent`: text messages, the own permission list, and bare error messages.
use nek.Common.{
  ℕ, ◌-◌, ◌%◌, ◌^◌, Bool, Option, none, some, List, [], ◌∷◌, ◌++◌, map, length, if◌then◌else◌, leb,
  unwrap_or, ◌==◌,
}
use nek.Common.Text.{Text, lit, decimal}
use nek.Model.{
  World, ℤ, TsPerm, TsError, channel_invalid_password, text_message, move_rejected, push_event,
  push_diag,
}

pub record TextPart : Type 0 where
  pub invoker_name : Text
  pub invoker_id : ℕ
  pub target : ℕ
  pub message : Text

unfoldable pub on_text_message : List TextPart → World → World
on_text_message [] w = w
on_text_message (p ∷ ps) w =
    on_text_message ps (push_event (text_message p.invoker_name p.invoker_id p.target p.message) w)

pub record PermPart : Type 0 where
  pub permission_name_id : Option Text
  pub permission_value : ℤ
  pub permission_negated : Bool
  pub permission_skip : Bool

abbrev perm_of : PermPart → TsPerm
perm_of p = record {
  name = unwrap_or p.permission_name_id [];
  value = p.permission_value;
  negated = p.permission_negated;
  skip = p.permission_skip;
}

unfoldable pub on_client_perm_list : List PermPart → World → World
unfolding push_diag
on_client_perm_list parts w =
    let v : World = record w { state = record w.state { own_perms = map perm_of parts } } in
    push_diag (lit "own clientpermlist: " ++ decimal (length v.state.own_perms) ++ lit " entries") v

abbrev pub move_window : ℕ
move_window = 5000

abbrev drop_pending : World → World
drop_pending w = record w { state = record w.state { pending_move = none } }

-- A wrong channel password is charged to the last move, if that is recent; the move is forgotten.
unfoldable pub attribute_rejection : ℕ → Option (ℕ × ℕ) → World → World
unfolding push_diag
attribute_rejection now none w =
    push_diag (lit "server rejected a command: invalid channel password") (drop_pending w)
attribute_rejection now (some (cid, at)) w =
    if leb (now - at) move_window
    then push_event (move_rejected (cid % 2 ^ 32)) (drop_pending w)
    else push_diag (lit "channel-password rejection is stale, dropped") (drop_pending w)

unfoldable pub on_error_entry : ℕ → TsError → World → World
unfolding attribute_rejection push_diag
on_error_entry now e w =
    if e.code == channel_invalid_password
    then attribute_rejection now w.state.pending_move w
    else push_diag (lit "server rejected command: " ++ e.debug) w

unfoldable pub on_command_error : ℕ → List TsError → World → World
unfolding on_error_entry
on_command_error now [] w = w
on_command_error now (e ∷ es) w = on_command_error now es (on_error_entry now e w)
