-- ===== src/Model/Transfer.antt =====
-- File transfers and directory listings (native/src/lib.rs). An `Instant` is a number of
-- milliseconds; the atomics of a task are plain fields.
use nek.Common.{ℕ, Bool, Option, List}
use nek.Common.Text.{Text}
use nek.Model.Roster.{ℤ}

abbrev pub ft_kind_download : ℕ
ft_kind_download = 0

abbrev pub ft_kind_upload : ℕ
ft_kind_upload = 1

pub record FtTask : Type 0 where
  pub kind : ℕ
  pub name : Text
  pub local_path : Text
  pub total : ℕ
  pub done : ℕ
  pub cancel : Bool
  pub client_ft_id : ℕ
  pub last_event : Option ℕ

pub record TsFtEntry : Type 0 where
  pub name : Text
  pub size : ℕ
  pub datetime : ℤ
  pub is_file : Bool

pub record PendingFtList : Type 0 where
  pub token : Text
  pub entries : List TsFtEntry
  pub created : ℕ
  pub cid : ℕ
  pub path : Text
  pub result_seen : Bool
  pub result_ok : Bool
  pub result_error : Option Text
  pub finished_seen : Bool
  pub finalize_scheduled : Bool

pub record PendingFtOp : Type 0 where
  pub token : Text
