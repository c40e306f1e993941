-- ===== src/Panic.antt =====
-- The panic hook (`install_panic_hook` in native/src/lib.rs) and how Dart hears of a panic.
use nek.Common.{
  ℕ, ◌≡◌, refl, ap, arith, Bool, false, Option, none, some, [], ◌∷◌, ◌++◌, ◌||◌, if◌then◌else◌,
  ◌==◌, Bool-cases, inl, inr, any,
}
use nek.Common.Text.{Text, lit, decimal}
use nek.Model.{World, diag, flush_panic_log}
use nek.Calls.Session.{ts_poll_events}

pub record Location : Type 0 where
  pub file : Text
  pub line : ℕ
  pub column : ℕ

-- What a panic carries: a literal, a string, or anything else.
pub data PanicPayload : Type 0 where
  str string : Text → PanicPayload
  other_payload : PanicPayload

abbrev is_separator : ℕ → Bool
is_separator c = c == b'/' || c == b'\\'

-- The text behind the last separator; `part` is what is there without one.
short_from : Text → Text → Text
short_from part [] = part
short_from part (c ∷ t) =
    let separated = short_from t t in
    let rest = short_from part t in if is_separator c then separated else rest

abbrev short_name : Text → Text
unfolding short_from
short_name file = short_from file file

abbrev location_of : Option Location → Text
unfolding short_from
location_of none = lit "unknown location"
location_of (some l) = short_name l.file ++ lit ":" ++ decimal l.line ++ lit ":" ++ decimal l.column

abbrev pub payload_of : PanicPayload → Text
payload_of (str s) = s
payload_of (string s) = s
payload_of other_payload = lit "unknown panic"

abbrev panic_message : Option Location → PanicPayload → Text
unfolding short_from
panic_message l p = lit "PANIC " ++ location_of l ++ lit ": " ++ payload_of p

-- What the hook does when the thread panics.
unfoldable pub panic_hook : Option Location → PanicPayload → World → World
unfolding short_from
panic_hook l p w = record w { panic_log = panic_message l p }

module _ (name : Text) (plain : any is_separator name ≡ false) where
  short_from_plain : (part t : Text) → any is_separator t ≡ false → short_from part t ≡ part
  unfolding short_from
  short_from_plain part [] h = refl
  short_from_plain part (c ∷ t) h = elim (Bool-cases (is_separator c)) [
    | inl e ↦ ground (arith, h, e)
    | inr e ↦ rw e (short_from_plain part t (ground (arith, h, e)))
  ]

  short_from_dir : (part dir : Text) → short_from part (dir ++ b'/' ∷ name) ≡ name
  unfolding short_from
  short_from_dir part [] = short_from_plain name name plain
  short_from_dir part (c ∷ dir) = elim (Bool-cases (is_separator c)) [
    | inl e ↦ rw e (short_from_dir (dir ++ b'/' ∷ name) dir)
    | inr e ↦ rw e (short_from_dir part dir)
  ]

-- A panic names the file without the directories before it.
location_of_dir :
    (dir name : Text) (line column : ℕ)
    → any is_separator name ≡ false
    → location_of (some (record { file = dir ++ b'/' ∷ name; line = line; column = column }))
      ≡ name ++ lit ":" ++ decimal line ++ lit ":" ++ decimal column
unfolding short_from
location_of_dir dir name line column plain =
    ap (λ n. n ++ lit ":" ++ decimal line ++ lit ":" ++ decimal column)
      (short_from_dir name plain (dir ++ b'/' ∷ name) dir)

-- The next poll behind a panic tells of it, after all that was waiting, whatever panicked before
-- without a poll; the poll after that has nothing more to tell.
ts_poll_events-panic_hook :
    (l : Option Location) (p : PanicPayload) (w : World)
    → let v = panic_hook l p w in
      ((ts_poll_events v).1 ≡ w.state.pending_events ++ diag (panic_message l p) ∷ [])
      × ((ts_poll_events (ts_poll_events v).0).1 ≡ [])
unfolding panic_hook ts_poll_events flush_panic_log short_from lit
ts_poll_events-panic_hook l p w = (refl, refl)
