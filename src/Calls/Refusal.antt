-- ===== src/Calls/Refusal.antt =====
-- The calls that queue a command, those on files included, when no event loop takes commands.
use nek.Common.{ℕ, ◌≡◌, refl, ap, ◌∙◌, false, Option, none, List, [], ◌∷◌, length, replicate}
use nek.Common.Text.{Text}
use nek.Model.{World, Command}
use nek.Calls.Delivery.{Request, call, command_of, delivered, outcome, call-outcome}
use nek.Calls.Transfers.{
  Metadata, ft_ready, ts_ft_list, ts_ft_mkdir, ts_ft_delete, ts_ft_download, ts_download_avatar,
  ts_ft_upload,
}

-- What the calls on files ask of JSON, base64 and the file system.
pub record FileOps : Type 0 where
  pub parse_json : Text → Option (List Text)
  pub avatar_name : Text → Option Text
  pub metadata : Text → Option Metadata

-- A call on files, with its arguments.
pub data FileRequest : Type 0 where
  list_files make_dir delete_files download_file upload_file :
      ℕ → Option Text → Option Text → Option Text → FileRequest
  download_avatar : Option Text → Option Text → FileRequest

unfoldable pub file_call : FileOps → FileRequest → World → World × ℕ
unfolding ts_ft_list ts_ft_mkdir ts_ft_delete ts_ft_download ts_download_avatar ts_ft_upload
file_call o (list_files cid path pw token) w = ts_ft_list cid path pw token w
file_call o (make_dir cid path pw token) w = ts_ft_mkdir cid path pw token w
file_call o (delete_files cid names pw token) w = ts_ft_delete o.parse_json cid names pw token w
file_call o (download_file cid path dest pw) w = ts_ft_download cid path dest pw w
file_call o (upload_file cid path src pw) w = ts_ft_upload o.metadata cid path src pw w
file_call o (download_avatar uid dest) w = ts_download_avatar o.avatar_name uid dest w

-- Any call that queues a command, but for the two that ask for the end of the session.
pub data AnyCall : Type 0 where
  plain : Request → AnyCall
  on_files : FileRequest → AnyCall

unfoldable pub any_call : FileOps → AnyCall → World → World × ℕ
unfolding call file_call
any_call o (plain r) w = call r w
any_call o (on_files f) w = file_call o f w

-- Calls one after the other, and what each returned.
unfoldable pub any_calls : FileOps → List AnyCall → World → World × List ℕ
unfolding any_call
any_calls o [] w = (w, [])
any_calls o (c ∷ cs) w =
    let (v, answer) = any_call o c w in let (u, answers) = any_calls o cs v in (u, answer ∷ answers)

file_call_refused :
    (o : FileOps) (f : FileRequest) (w : World) → ft_ready w ≡ false → file_call o f w ≡ (w, 0)
unfolding file_call
file_call_refused o (list_files cid path pw token) w h = simp h
file_call_refused o (make_dir cid path pw token) w h = simp h
file_call_refused o (delete_files cid names pw token) w h = simp h
file_call_refused o (download_file cid path dest pw) w h = simp h
file_call_refused o (upload_file cid path src pw) w h = simp h
file_call_refused o (download_avatar uid dest) w h = simp h

-- No command can be queued: the calls on files see that, and a queue that is there has lost its
-- other end.
pub record NoLoop (w : World) : Type 0 where
  pub no_files : ft_ready w ≡ false
  pub nowhere : (cmd : Command) → delivered cmd w ≡ none

any_call_refused : (o : FileOps) (c : AnyCall) (w : World) → NoLoop w → any_call o c w ≡ (w, 0)
unfolding any_call
any_call_refused o (plain r) w n = call-outcome r w ∙ ap (outcome w) (n.nowhere (command_of r w))
any_call_refused o (on_files f) w n = file_call_refused o f w n.no_files

-- Where no command can be queued, any calls one after the other leave everything as it is and
-- return 0 each.
pub any_calls_refused :
    (o : FileOps) (cs : List AnyCall) (w : World)
    → NoLoop w
    → any_calls o cs w ≡ (w, replicate (length cs) 0)
unfolding any_calls
any_calls_refused o [] w n = refl
any_calls_refused o (c ∷ cs) w n = rw (any_call_refused o c w n, any_calls_refused o cs w n)
