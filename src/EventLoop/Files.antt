-- ===== src/EventLoop/Files.antt =====
-- The file transfer commands.
use nek.Common.{
  ℕ, ◌+◌, ◌-◌, ◌%◌, ◌^◌, false, Option, none, some, List, [], ◌∷◌, ◌++◌, map, filter, length, leb,
}
use nek.Common.Text.{Text, lit, decimal}
use nek.Common.Table.{Table, lookup, insert, update}
use nek.Model.{
  World, FtTask, PendingFtList, SendResult, handle, failed, OutMessage, Arg, num, text, raw_cmd,
  ft_op, ft_listing, push_event, push_diag, transmit, finish_ft_task,
}
use nek.EventLoop.Env.{Env}

-- The `cpw` argument: always there, empty without a password.
unfoldable pub encoded_cpw : (Text → Text) → Option Text → Text
encoded_cpw encode_password none = []
encoded_cpw encode_password (some p) = encode_password p

unfoldable pub push_wire_diag : Env → Text → OutMessage → World → World
unfolding push_diag
push_wire_diag env tag packet w = push_diag (lit "ft req " ++ tag ++ lit ": " ++ env.wire packet) w

abbrev pub one_part : Text → List (Text × Arg) → OutMessage
one_part name args = raw_cmd name (args ∷ [])

abbrev pub new_list : Env → ℕ → Text → Text → PendingFtList
new_list env cid path token = record {
  token = token;
  entries = [];
  created = env.now;
  cid = cid;
  path = path;
  result_seen = false;
  result_ok = false;
  result_error = none;
  finished_seen = false;
  finalize_scheduled = false;
}

-- The safety valve: listings older than half a minute are dropped.
abbrev pub drop_stale : ℕ → Table PendingFtList → Table PendingFtList
drop_stale now lists = filter (λ e. leb (now - e.1.created) 30000) lists

unfoldable pub file_list : Env → ℕ → Text → Text → SendResult → World → World
unfolding push_diag
file_list env cid path token (handle rc) w =
    let v : World =
      push_diag (lit "ft list " ++ token ++ lit ": sent (rc=" ++ decimal rc ++ lit ")") w in
    record v { ft_lists = drop_stale env.now (insert rc (new_list env cid path token) v.ft_lists) }
file_list env cid path token (failed e) w =
    push_event (ft_listing token [] (some e))
      (push_diag (lit "ft list " ++ token ++ lit ": send failed: " ++ e) w)

unfoldable pub on_ft_list : Env → ℕ → Text → Option Text → Text → World → World
unfolding push_diag push_wire_diag encoded_cpw file_list
on_ft_list env cid path password token w =
    let packet = one_part (lit "ftgetfilelist") (
      (lit "cid", num cid)
      ∷ (lit "cpw", text (encoded_cpw env.encode_password password))
      ∷ (lit "path", text path)
      ∷ []) in
    file_list env cid path token env.answer (
      transmit packet (
        push_wire_diag env (lit "list " ++ token) packet (
          push_diag
            (lit "ft list " ++ token ++ lit ": request cid=" ++ decimal cid ++ lit " path=" ++ path)
            w)))

-- Files the return code of a mkdir or delete, or fails its token. `what` names the operation.
unfoldable pub file_op : Text → Text → SendResult → World → World
unfolding push_diag
file_op what token (handle rc) w = record w {
  ft_ops = insert rc (record { token = token }) w.ft_ops;
}
file_op what token (failed e) w =
    push_event (ft_op token false (some e))
      (push_diag (lit "ft " ++ what ++ lit " " ++ token ++ lit ": send failed: " ++ e) w)

unfoldable pub on_ft_create_dir : Env → ℕ → Text → Option Text → Text → World → World
unfolding push_diag push_wire_diag encoded_cpw file_op
on_ft_create_dir env cid dirname password token w =
    let packet = one_part (lit "ftcreatedir") (
      (lit "cid", num cid)
      ∷ (lit "cpw", text (encoded_cpw env.encode_password password))
      ∷ (lit "dirname", text dirname)
      ∷ []) in
    file_op (lit "mkdir") token env.answer (
      transmit packet (
        push_wire_diag env (lit "mkdir " ++ token) packet
          (push_diag (lit "ft mkdir " ++ token ++ lit ": dirname=" ++ dirname) w)))

unfoldable pub on_ft_delete : Env → ℕ → List Text → Option Text → Text → World → World
unfolding push_diag push_wire_diag encoded_cpw file_op
on_ft_delete env cid names password token w =
    let cpw = encoded_cpw env.encode_password password in
    let packet = raw_cmd (lit "ftdeletefile") (
      map (λ name. (lit "cid", num cid) ∷ (lit "cpw", text cpw) ∷ (lit "name", text name) ∷ [])
        names) in
    file_op (lit "delete") token env.answer (
      transmit packet (
        push_wire_diag env (lit "delete " ++ token) packet (
          push_diag
            (lit "ft delete " ++ token ++ lit ": " ++ decimal (length names) ++ lit " path(s)") w)))

-- `FT_CLIENT_FT.fetch_add(1)`, and the id stored in the task.
unfoldable pub bind_ft_id : ℕ → World → World × ℕ
bind_ft_id task_id w = (
  record w {
    ft_client_ft = (w.ft_client_ft + 1) % 2 ^ 16;
    ft_tasks = update task_id (λ t. record t { client_ft_id = w.ft_client_ft }) w.ft_tasks;
  },
  w.ft_client_ft,
)

-- Files the return code of a transfer under its task, or fails the task.
unfoldable pub file_transfer : ℕ → SendResult → World → World
unfolding finish_ft_task
file_transfer task_id (handle rc) w = record w { ft_task_by_rc = insert rc task_id w.ft_task_by_rc }
file_transfer task_id (failed e) w = finish_ft_task task_id false (some e) w

abbrev request_text : Text → ℕ → ℕ → Text → Text
request_text what task_id cid path =
    lit "ft "
    ++ what
    ++ lit " task="
    ++ decimal task_id
    ++ lit " cid="
    ++ decimal cid
    ++ lit " path="
    ++ path

unfoldable pub on_ft_download : Env → ℕ → Text → Option Text → ℕ → World → World
unfolding push_diag push_wire_diag encoded_cpw bind_ft_id file_transfer
on_ft_download env cid path password task_id w =
    let (v, ftid) =
      bind_ft_id task_id (push_diag (request_text (lit "download") task_id cid path) w) in
    let packet = one_part (lit "ftinitdownload") (
      (lit "clientftfid", num ftid)
      ∷ (lit "name", text path)
      ∷ (lit "cid", num cid)
      ∷ (lit "cpw", text (encoded_cpw env.encode_password password))
      ∷ (lit "seekpos", num 0)
      ∷ (lit "proto", num 1)
      ∷ []) in
    file_transfer task_id env.answer
      (transmit packet (push_wire_diag env (lit "download task=" ++ decimal task_id) packet v))

abbrev total_of : Option FtTask → ℕ
total_of none = 0
total_of (some t) = t.total

unfoldable pub on_ft_upload : Env → ℕ → Text → Option Text → ℕ → World → World
unfolding push_diag push_wire_diag encoded_cpw bind_ft_id file_transfer
on_ft_upload env cid path password task_id w =
    let total = total_of (lookup task_id w.ft_tasks) in
    let (v, ftid) =
      bind_ft_id task_id (push_diag (request_text (lit "upload") task_id cid path) w) in
    let packet = one_part (lit "ftinitupload") (
      (lit "clientftfid", num ftid)
      ∷ (lit "name", text path)
      ∷ (lit "cid", num cid)
      ∷ (lit "cpw", text (encoded_cpw env.encode_password password))
      ∷ (lit "size", num total)
      ∷ (lit "overwrite", num 1)
      ∷ (lit "resume", num 0)
      ∷ (lit "proto", num 1)
      ∷ []) in
    file_transfer task_id env.answer
      (transmit packet (push_wire_diag env (lit "upload task=" ++ decimal task_id) packet v))
