-- ===== src/Items/Answer.antt =====
-- `StreamItem::MessageResult`: the answer to a request that carries one of our return codes.
use nek.Common.{ℕ, Bool, true, false, ◌||◌, Option, none, some, [], ◌++◌, if◌then◌else◌, unwrap_or}
use nek.Common.Text.{Text, lit, decimal, to_ascii_lowercase, contains}
use nek.Common.Table.{lookup, remove, update}
use nek.Model.{World, PendingFtList, TsError, perm_op, ft_op, push_event, push_diag, finish_ft_task}
use nek.Items.Listing.{schedule_ft_list_finish}
use nek.Items.Transfer.{error_text}

-- The result of a request: nothing, or the error of the server.
abbrev pub Answer : Type 0
Answer = Option TsError

abbrev pub is_ok : Answer → Bool
is_ok none = true
is_ok (some e) = false

abbrev pub err_text : Answer → Option Text
err_text none = none
err_text (some e) = some (error_text e)

abbrev said : Text → Text → Answer → Text
said what token res =
    what
    ++ token
    ++ lit ": server said ok="
    ++ (if is_ok res then lit "true" else lit "false")
    ++ lit " "
    ++ unwrap_or (err_text res) []

-- Resolves the token of a permission command.
unfoldable pub resolve_perm_op : ℕ → Answer → World → World
unfolding push_diag
resolve_perm_op rc res w = elim (lookup rc w.perm_ops) [
  | none ↦ w
  | some token ↦
      push_event (perm_op token (is_ok res) (err_text res))
        (push_diag (said (lit "perm op ") token res) (record w { perm_ops = remove rc w.perm_ops }))
]

-- Resolves the token of a mkdir or a delete.
unfoldable pub resolve_ft_op : ℕ → Answer → World → World
unfolding push_diag
resolve_ft_op rc res w = elim (lookup rc w.ft_ops) [
  | none ↦ w
  | some op ↦
      push_event (ft_op op.token (is_ok res) (err_text res))
        (push_diag (said (lit "ft op ") op.token res) (record w { ft_ops = remove rc w.ft_ops }))
]

abbrev reject_task : ℕ → Answer → World → World
reject_task task_id none w = w
reject_task task_id (some e) w =
    finish_ft_task task_id false (some (error_text e))
      (push_diag (lit "ft task " ++ decimal task_id ++ lit " rejected: " ++ e.debug) w)

-- A rejected transfer fails its task; in any case its return code is forgotten.
unfoldable pub resolve_transfer : ℕ → Answer → World → World
unfolding push_diag finish_ft_task
resolve_transfer rc res w = elim (lookup rc w.ft_task_by_rc) [
  | none ↦ w
  | some task_id ↦ reject_task task_id res (record w { ft_task_by_rc = remove rc w.ft_task_by_rc })
]

-- The server answers so for a channel that has no file storage yet.
abbrev pub is_empty_result : Answer → Bool
is_empty_result none = false
is_empty_result (some e) = contains (to_ascii_lowercase (error_text e)) (lit "databaseemptyresult")

abbrev record_result : Answer → PendingFtList → PendingFtList
record_result res p = record p {
  result_seen = true;
  result_ok = is_ok res || is_empty_result res;
  result_error = if is_empty_result res then none else err_text res;
}

-- Records the result of a listing; a rejected one ends here, since no rows will follow.
unfoldable pub resolve_listing : ℕ → Answer → World → World
unfolding schedule_ft_list_finish error_text
resolve_listing rc res w = elim (lookup rc w.ft_lists) [
  | none ↦ w
  | some p ↦
      let v : World = record w { ft_lists = update rc (record_result res) w.ft_lists } in
      if is_ok res then v else schedule_ft_list_finish rc v
]

unfoldable pub on_message_result : ℕ → Answer → World → World
unfolding resolve_perm_op resolve_ft_op resolve_transfer resolve_listing
on_message_result rc res w =
    resolve_listing rc res
      (resolve_transfer rc res (resolve_ft_op rc res (resolve_perm_op rc res w)))
