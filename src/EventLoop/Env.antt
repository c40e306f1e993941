-- ===== src/EventLoop/Env.antt =====
-- What the loop takes from outside while it handles one command or item: the time, the answers
-- of the connection library, and the functions of other libraries.
use nek.Common.{ℕ, Bool, true, false, Option}
use nek.Common.Text.{Text}
use nek.Model.{SendResult, handle, failed, OutMessage}

pub record Env : Type 0 where
  pub now : ℕ
  -- the own client's id in the library's book, if there is a book
  pub book_own : Option ℕ
  -- the result of the send that the command makes
  pub answer : SendResult
  -- base64 of the SHA-1 of a password
  pub encode_password : Text → Text
  -- the bytes of a request as text
  pub wire : OutMessage → Text

abbrev pub is_sent : SendResult → Bool
is_sent (handle rc) = true
is_sent (failed e) = false
