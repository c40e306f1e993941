-- ===== src/Items/Ledger.antt =====
-- The tokens of the permission commands: each is answered once.
use nek.Common.{
  ℕ, ◌+◌, ◌≡◌, refl, ap, false, none, some, List, [], ◌∷◌, ◌++◌, inl, inr, arith, if◌then◌else◌,
  ◌==◌, Bool-cases, Option-cases, map, unwrap_or,
}
use nek.Common.Text.{Text, lit, text_eq}
use nek.Common.Table.{Table, Distinct, lookup, insert, remove, remove_absent, same_key}
use nek.Model.{World, TsEvent, perm_op, SendResult, handle, failed, push_diag, push_event}
use nek.EventLoop.Permissions.{perm_op_send}
use nek.Items.Answer.{Answer, resolve_perm_op}
use nek.Items.Interruption.{on_disconnected_temporarily, fail_tokens}

-- 1 if the two tokens are equal.
abbrev pub same : Text → Text → ℕ
same t u = if text_eq t u then 1 else 0

abbrev answer_of : Text → TsEvent → ℕ
answer_of t (perm_op u ok err) = same t u
answer_of t _ = 0

-- How many answers to a token the events hold, and how many pending return codes stand for it.
abbrev pub answers : Text → List TsEvent → ℕ
answers t [] = 0
answers t (e ∷ es) = answer_of t e + answers t es

abbrev pub pending : Text → Table Text → ℕ
pending t [] = 0
pending t ((rc, u) ∷ m) = same t u + pending t m

-- What a token has been or will be answered.
abbrev pub owed : Text → World → ℕ
owed t w = pending t w.perm_ops + answers t w.state.pending_events

answers-append :
    (t : Text) (es fs : List TsEvent) → answers t (es ++ fs) ≡ answers t es + answers t fs
answers-append t [] fs = omega arith
answers-append t (e ∷ es) fs = omega (arith, answers-append t es fs)

pending-insert :
    (t : Text) (rc : ℕ) (u : Text) (m : Table Text)
    → lookup rc m ≡ none
    → pending t (insert rc u m) ≡ pending t m + same t u
unfolding lookup insert
pending-insert t rc u [] h = omega arith
pending-insert t rc u ((j, v) ∷ m) h = elim (Bool-cases (j == rc)) [
  | inl e ↦ absurd (cc (rw e at h))
  | inr e ↦ rw e (omega (arith, pending-insert t rc u m (rw e at h)))
]

pending-remove :
    (t : Text) (rc : ℕ) (u : Text) (m : Table Text)
    → Distinct m
    → lookup rc m ≡ some u
    → pending t (remove rc m) + same t u ≡ pending t m
unfolding lookup remove
pending-remove t rc u [] d h = absurd (cc h)
pending-remove t rc u ((j, v) ∷ m) d h = elim (Bool-cases (j == rc)) [
  | inl e ↦
      rw (e, remove_absent rc m (rw (same_key j rc e) at d.0))
        (omega (arith, ap (λ o. same t (unwrap_or o v)) (rw e at h)))
  | inr e ↦ rw e (omega (arith, pending-remove t rc u m d.1 (rw e at h)))
]

-- A send adds one answer to what its token is owed, and nothing to any other token: at once if
-- the send failed, and as a pending return code, which must be a new one, if it went out.
pub owed-perm_op_send :
    (t token : Text) (r : SendResult) (w : World)
    → ((rc : ℕ) → r ≡ handle rc → lookup rc w.perm_ops ≡ none)
    → owed t (perm_op_send r token w) ≡ owed t w + same t token
unfolding perm_op_send push_diag
owed-perm_op_send t token (handle rc) w fresh =
    omega (arith, pending-insert t rc token w.perm_ops (fresh rc refl), answers-append)
owed-perm_op_send t token (failed e) w fresh = omega (arith, answers-append)

-- An answer of the server keeps what each token is owed: it moves the token of its code from the
-- pending codes to the answers, if no code is pending twice.
pub owed-resolve_perm_op :
    (t : Text) (rc : ℕ) (res : Answer) (w : World)
    → Distinct w.perm_ops
    → owed t (resolve_perm_op rc res w) ≡ owed t w
unfolding resolve_perm_op push_diag
owed-resolve_perm_op t rc res w d = elim (Option-cases (lookup rc w.perm_ops)) [
  | inl e ↦ rw (e, resolve_perm_op)
  | inr (u, e) ↦
      rw (e, resolve_perm_op) (omega (arith, pending-remove t rc u w.perm_ops d e, answers-append))
]

answers-fail_tokens :
    (t : Text) (m : Table Text) (w : World)
    → answers t (fail_tokens (map (λ e. e.1) m) w).state.pending_events
      ≡ answers t w.state.pending_events + pending t m
unfolding fail_tokens
answers-fail_tokens t [] w = omega arith
answers-fail_tokens t ((rc, u) ∷ m) w = omega (
  arith,
  answers-fail_tokens t m (push_event (perm_op u false (some (lit "connection lost"))) w),
  answers-append,
)

perm_ops-fail_tokens : (ts : List Text) (w : World) → (fail_tokens ts w).perm_ops ≡ w.perm_ops
unfolding fail_tokens
perm_ops-fail_tokens [] w = refl
perm_ops-fail_tokens (t ∷ ts) w =
    perm_ops-fail_tokens ts (push_event (perm_op t false (some (lit "connection lost"))) w)

-- When the connection is interrupted every pending token is answered: what a token is owed stays,
-- and nothing is pending any more.
pub owed-on_disconnected_temporarily :
    (t reason : Text) (w : World)
    → let v = on_disconnected_temporarily reason w in (owed t v ≡ owed t w) × (v.perm_ops ≡ [])
unfolding on_disconnected_temporarily
owed-on_disconnected_temporarily t reason w =
    let cleared : World = record w { sfx_armed = false; ft_lists = []; perm_ops = [] } in
    let empty = perm_ops-fail_tokens (map (λ e. e.1) w.perm_ops) cleared in
    (
      omega (arith, ap (pending t) empty, answers-append, answers-fail_tokens t w.perm_ops cleared),
      empty,
    )
