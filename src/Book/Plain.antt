-- ===== src/Book/Plain.antt =====
-- The kinds of sounds that the events of a batch make, of `maybe_trigger_sfx`.
use nek.Common.{
  ℕ, ◌≡◌, refl, Bool, true, false, not, ◌&&◌, ◌||◌, Option, none, some, if◌then◌else◌, leb, ◌==◌,
  unwrap_or,
}
use nek.Model.{
  Reason, no_reason, moved, subscription, lost_connection, kick_channel, kick_server,
  kick_server_ban, clientdisconnect, other_reason,
}
use nek.Sound.Kind
use nek.Book.Trigger.{is_here, added_sound, move_sound, away_sound, to_sound, removed_sound}

-- The kinds that sound once in a batch, and those that sound whenever they are triggered.
abbrev pub is_once : ℕ → Bool
is_once kind = (kind == Kind.channel_edited) || (kind == Kind.channel_moved)

abbrev pub is_plain : ℕ → Bool
is_plain kind = leb 1 kind && leb kind 37 && not (is_once kind)

abbrev pub AllPlain : Option ℕ → Type 0
AllPlain s = is_plain (unwrap_or s 1) ≡ true

pub if_elim {ℓ} :
    {A : Type ℓ} (Q : A → Type 0) (t : Bool) (x y : A) → Q x → Q y → Q (if t then x else y)
if_elim Q true x y p q = p
if_elim Q false x y p q = q

pub added_sound-AllPlain : (r : Option Reason) → AllPlain (added_sound r)
added_sound-AllPlain none = refl
added_sound-AllPlain (some no_reason) = refl
added_sound-AllPlain (some moved) = refl
added_sound-AllPlain (some kick_channel) = refl
added_sound-AllPlain (some subscription) = refl
added_sound-AllPlain (some lost_connection) = refl
added_sound-AllPlain (some kick_server) = refl
added_sound-AllPlain (some kick_server_ban) = refl
added_sound-AllPlain (some clientdisconnect) = refl
added_sound-AllPlain (some other_reason) = refl

pub removed_sound-AllPlain : (r : Option Reason) → AllPlain (removed_sound r)
removed_sound-AllPlain none = refl
removed_sound-AllPlain (some no_reason) = refl
removed_sound-AllPlain (some moved) = refl
removed_sound-AllPlain (some kick_channel) = refl
removed_sound-AllPlain (some subscription) = refl
removed_sound-AllPlain (some lost_connection) = refl
removed_sound-AllPlain (some kick_server) = refl
removed_sound-AllPlain (some kick_server_ban) = refl
removed_sound-AllPlain (some clientdisconnect) = refl
removed_sound-AllPlain (some other_reason) = refl

away_sound-is_plain : (r : Option Reason) → is_plain (away_sound r) ≡ true
away_sound-is_plain none = refl
away_sound-is_plain (some no_reason) = refl
away_sound-is_plain (some moved) = refl
away_sound-is_plain (some kick_channel) = refl
away_sound-is_plain (some subscription) = refl
away_sound-is_plain (some lost_connection) = refl
away_sound-is_plain (some kick_server) = refl
away_sound-is_plain (some kick_server_ban) = refl
away_sound-is_plain (some clientdisconnect) = refl
away_sound-is_plain (some other_reason) = refl

to_sound-is_plain : (r : Option Reason) → is_plain (to_sound r) ≡ true
to_sound-is_plain none = refl
to_sound-is_plain (some no_reason) = refl
to_sound-is_plain (some moved) = refl
to_sound-is_plain (some kick_channel) = refl
to_sound-is_plain (some subscription) = refl
to_sound-is_plain (some lost_connection) = refl
to_sound-is_plain (some kick_server) = refl
to_sound-is_plain (some kick_server_ban) = refl
to_sound-is_plain (some clientdisconnect) = refl
to_sound-is_plain (some other_reason) = refl

pub move_sound-AllPlain :
    (own : Option ℕ) (from to : ℕ) (r : Option Reason) → AllPlain (move_sound own from to r)
move_sound-AllPlain own from to r =
    if_elim AllPlain (is_here own from && not (is_here own to)) (some (away_sound r)) _
      (away_sound-is_plain r)
      (if_elim AllPlain (not (is_here own from) && is_here own to) (some (to_sound r)) none
        (to_sound-is_plain r) refl)
