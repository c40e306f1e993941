-- ===== src/EventLoop/Targets.antt =====
-- Whom a kick, a ban or a move may reach.
use nek.Common.{
  ℕ, ◌≡◌, refl, Bool, Option, none, some, [], ◌∷◌, ◌++◌, append-nil, inl, inr, Bool-cases, ◌&&◌,
  is_empty, if◌then◌else◌, ◌==◌,
}
use nek.Common.Text.{Text}
use nek.Model.{World, push_diag, SendResult, handle, failed}
use nek.EventLoop.Env.{Env, is_sent}
use nek.EventLoop.Permissions.{perm_op_send}
use nek.EventLoop.Moderation.{
  own_client_id_or_cache, refuse, report_back, kick_message, ban_message, on_kick_client,
  on_ban_client,
}

-- The id that the loop takes for the own client's.
abbrev pub own_id : Env → World → ℕ
own_id env w = (own_client_id_or_cache env.book_own w).1

sent-own : (own : Option ℕ) (w : World) → (own_client_id_or_cache own w).0.sent ≡ w.sent
unfolding own_client_id_or_cache
sent-own none w = refl
sent-own (some own) w = elim (Bool-cases (own == 0)) [ inl e ↦ rw e | inr e ↦ rw e ]

sent-refuse : (token : Option Text) (why : Text) (w : World) → (refuse token why w).sent ≡ w.sent
sent-refuse none why w = refl
sent-refuse (some t) why w = refl

sent-push_diag : (t : Text) (w : World) → (push_diag t w).sent ≡ w.sent
unfolding push_diag
sent-push_diag t w = refl

sent-perm_op_send : (r : SendResult) (t : Text) (w : World) → (perm_op_send r t w).sent ≡ w.sent
unfolding perm_op_send push_diag
sent-perm_op_send (handle rc) t w = refl
sent-perm_op_send (failed e) t w = refl

sent-report_back :
    (env : Env) (what : Text) (token : Option Text) (w : World)
    → (report_back env what token w).sent ≡ w.sent
unfolding report_back
sent-report_back env what (some t) w = sent-perm_op_send env.answer t w
sent-report_back env what none w = elim (Bool-cases (is_sent env.answer)) [
  | inl e ↦ rw e
  | inr e ↦ rw (e, sent-push_diag)
]

-- Handling a kick sends exactly one request, with the reason if there is one and without it if
-- the reason is empty; but none at all if the client is the own one.
pub sent-on_kick_client :
    (env : Env) (client_id : ℕ) (from_server : Bool) (reason : Text) (token : Option Text)
    (w : World)
    → (on_kick_client env client_id from_server reason token w).sent
      ≡ w.sent
        ++ (if client_id == own_id env w
            then []
            else kick_message client_id from_server reason ∷ [])
unfolding on_kick_client
sent-on_kick_client env client_id from_server reason token w =
    elim (Bool-cases (client_id == own_id env w)) [
      | inl e ↦ rw (e, sent-refuse, sent-push_diag, sent-own, append-nil)
      | inr e ↦ rw (e, sent-report_back, sent-push_diag, sent-own)
    ]

-- Handling a ban sends exactly one request, unless the client is the own one, or the ban has no
-- reason and would not end.
pub sent-on_ban_client :
    (env : Env) (client_id time_seconds : ℕ) (reason : Text) (token : Option Text) (w : World)
    → (on_ban_client env client_id time_seconds reason token w).sent
      ≡ w.sent
        ++ (if is_empty reason && time_seconds == 0
            then []
            else if client_id == own_id env w
            then []
            else ban_message client_id time_seconds reason ∷ [])
unfolding on_ban_client
sent-on_ban_client env client_id time_seconds reason token w =
    elim (Bool-cases (is_empty reason && time_seconds == 0)) [
      | inl e ↦ rw (e, sent-refuse, sent-push_diag, sent-own, append-nil)
      | inr e ↦ elim (Bool-cases (client_id == own_id env w)) [
        | inl f ↦ rw (e, f, sent-refuse, sent-push_diag, sent-own, append-nil)
        | inr f ↦ rw (e, f, sent-report_back, sent-push_diag, sent-own)
      ]
    ]
