-- ===== src/Calls/Transfers.antt =====
-- The file transfer calls. JSON, base64, the avatar name of a uid and the file system are not
-- the program's: what they answer is an argument.
use nek.Common.{
  ℕ, ◌+◌, ◌%◌, ◌^◌, Bool, true, false, not, ◌&&◌, ◌||◌, Option, none, some, List, ◌++◌, map, filter,
  is_empty, is_some, if◌then◌else◌,
}
use nek.Common.Text.{Text, lit}
use nek.Common.Table.{lookup, insert, update}
use nek.Model.{
  World, FtTask, Command, ft_kind_download, ft_kind_upload, ft_started, ft_list, ft_create_dir,
  ft_delete, ft_download, ft_upload, push_event, finish_ft_task,
}
use nek.RemotePath.{normalize_remote_path, valid_remote_path, remote_basename}
use nek.Calls.Queue.{read_cstr, non_empty, send_cmd, as_u8}

-- The id of a task until the event loop binds one.
abbrev pub unbound_ft_id : ℕ
unbound_ft_id = 0xffff

unfoldable pub ft_new_task : ℕ → Text → Text → ℕ → World → World × ℕ
ft_new_task kind name local_path total w = (
  record w {
    ft_task_seq = (w.ft_task_seq + 1) % 2 ^ 32;
    ft_tasks = insert w.ft_task_seq task w.ft_tasks;
  },
  w.ft_task_seq,
)
  where
    task : FtTask
    task = record {
      kind = kind;
      name = name;
      local_path = local_path;
      total = total;
      done = 0;
      cancel = false;
      client_ft_id = unbound_ft_id;
      last_event = none;
    }

unfoldable pub ft_push_started : ℕ → World → World
ft_push_started task_id w = elim (lookup task_id w.ft_tasks) [
  | none ↦ w
  | some t ↦ push_event (ft_started task_id t.kind t.name t.total) w
]

abbrev pub ft_ready : World → Bool
ft_ready w = w.state.connected && w.event_loop_alive

abbrev pub ft_password : Option Text → Option Text
ft_password pw = non_empty (read_cstr pw)

unfoldable pub ts_ft_list : ℕ → Option Text → Option Text → Option Text → World → World × ℕ
unfolding send_cmd
ts_ft_list cid path pw token w =
    let p = normalize_remote_path (read_cstr path) in
    if not (ft_ready w) || not (is_some token)
    then (w, 0)
    else if not (valid_remote_path p)
    then (w, 0)
    else if is_empty (read_cstr token)
    then (w, 0)
    else as_u8 (send_cmd (ft_list cid p (ft_password pw) (read_cstr token)) w)

unfoldable pub ts_ft_mkdir : ℕ → Option Text → Option Text → Option Text → World → World × ℕ
unfolding send_cmd
ts_ft_mkdir cid path pw token w =
    let dirname = normalize_remote_path (read_cstr path) in
    if not (ft_ready w) || not (is_some token)
    then (w, 0)
    else if not (valid_remote_path dirname)
    then (w, 0)
    else if is_empty (read_cstr token)
    then (w, 0)
    else as_u8 (send_cmd (ft_create_dir cid dirname (ft_password pw) (read_cstr token)) w)

-- The complete remote paths that are kept: normalized, and valid.
abbrev pub delete_names : List Text → List Text
delete_names raw = filter valid_remote_path (map normalize_remote_path raw)

-- `parse_json` is what serde_json makes of the array of names.
unfoldable pub ts_ft_delete :
    (Text → Option (List Text)) → ℕ → Option Text → Option Text → Option Text → World → World × ℕ
unfolding send_cmd
ts_ft_delete parse_json cid names_json pw token w =
    if not (ft_ready w) || not (is_some token)
    then (w, 0)
    else elim (parse_json (read_cstr names_json)) [
      | none ↦ (w, 0)
      | some raw ↦
          if is_empty raw
          then (w, 0)
          else if is_empty (delete_names raw)
          then (w, 0)
          else if is_empty (read_cstr token)
          then (w, 0)
          else as_u8
              (send_cmd (ft_delete cid (delete_names raw) (ft_password pw) (read_cstr token)) w)
    ]

-- The end of the calls that start a transfer: a queue that does not answer fails the task.
unfoldable pub queue_task : ℕ → Command → World → World × ℕ
unfolding send_cmd finish_ft_task
queue_task task_id cmd w =
    let (v, queued) = send_cmd cmd w in
    if queued
    then (v, task_id)
    else (finish_ft_task task_id false (some (lit "event loop unavailable")) v, task_id)

-- Registers a task and queues the request that `cmd` makes of its id.
unfoldable pub start_task : ℕ → Text → Text → ℕ → (ℕ → Command) → World → World × ℕ
unfolding ft_new_task ft_push_started queue_task
start_task kind name local_path total cmd w =
    let (v, task_id) = ft_new_task kind name local_path total w in
    queue_task task_id (cmd task_id) (ft_push_started task_id v)

unfoldable pub ts_ft_download : ℕ → Option Text → Option Text → Option Text → World → World × ℕ
unfolding start_task
ts_ft_download cid path dest pw w =
    let p = normalize_remote_path (read_cstr path) in
    if not (ft_ready w) || not (is_some dest)
    then (w, 0)
    else if not (valid_remote_path p)
    then (w, 0)
    else if is_empty (read_cstr dest)
    then (w, 0)
    else start_task ft_kind_download (remote_basename p) (read_cstr dest) 0
        (ft_download cid p (ft_password pw)) w

-- `avatar_name` decodes a uid from base64 and spells it as an avatar name, if it is well formed.
unfoldable pub ts_download_avatar :
    (Text → Option Text) → Option Text → Option Text → World → World × ℕ
unfolding start_task
ts_download_avatar avatar_name uid dest w =
    if not (ft_ready w) || not (is_some dest) then (w, 0) else elim (avatar_name (read_cstr uid)) [
      | none ↦ (w, 0)
      | some name ↦
          let p = normalize_remote_path (lit "/avatar_" ++ name) in
          if not (valid_remote_path p)
          then (w, 0)
          else if is_empty (read_cstr dest)
          then (w, 0)
          else start_task ft_kind_download (remote_basename p) (read_cstr dest) 0
              (ft_download 0 p none) w
    ]

-- What the file system says of a path: whether it is a file, and its length.
pub record Metadata : Type 0 where
  pub is_file : Bool
  pub len : ℕ

unfoldable pub ts_ft_upload :
    (Text → Option Metadata) → ℕ → Option Text → Option Text → Option Text → World → World × ℕ
unfolding start_task
ts_ft_upload metadata cid path src pw w =
    let p = normalize_remote_path (read_cstr path) in
    if not (ft_ready w) || not (is_some src)
    then (w, 0)
    else if not (valid_remote_path p)
    then (w, 0)
    else if is_empty (read_cstr src)
    then (w, 0)
    else elim (metadata (read_cstr src)) [
      | none ↦ (w, 0)
      | some m ↦
          if not m.is_file
          then (w, 0)
          else start_task ft_kind_upload (remote_basename p) (read_cstr src) m.len
              (ft_upload cid p (ft_password pw)) w
    ]

unfoldable pub ts_ft_cancel : ℕ → World → World × ℕ
ts_ft_cancel task_id w = elim (lookup task_id w.ft_tasks) [
  | none ↦ (w, 0)
  | some t ↦
      (record w { ft_tasks = update task_id (λ u. record u { cancel = true }) w.ft_tasks }, 1)
]
