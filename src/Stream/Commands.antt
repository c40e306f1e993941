-- ===== src/Stream/Commands.antt =====
-- No command ends a transfer twice, or forgets to.
use nek.Common.{
  ℕ, ◌≡◌, refl, ◌∙◌, arith, Bool, true, false, ◌&&◌, Option, none, some, List, ◌++◌, inl, inr,
  Bool-cases, ◌==◌, is_empty, find,
}
use nek.Common.Text.{Text, lit, decimal}
use nek.Model.{
  World, OutMessage, SendResult, handle, failed, TsClient, push_diag, transmit, perm_op,
  out_client_move,
}
use nek.Sound.{push_sfx}
use nek.EventLoop.Env.{Env, is_sent}
use nek.EventLoop.Moderation.{
  own_client_id_or_cache, report_back, refuse, on_send_message, on_move_channel, on_kick_client,
  kick_message, on_ban_client, ban_message, arm_move, encode,
}
use nek.EventLoop.Permissions.{perm_op_send, on_own_perm_list, dbid_of, tracked}
use nek.EventLoop.Files.{on_ft_list, on_ft_create_dir, on_ft_delete, file_list, file_op}
use nek.Items.Done.{due_endings, endings-append, due-push_diag, due-push_wire_diag}
use nek.Stream.Due.{due-push_event}

module _ (id : ℕ) where
  due-perm_op_send :
      (r : SendResult) (token : Text) (w : World)
      → due_endings id (perm_op_send r token w) ≡ due_endings id w
  unfolding perm_op_send push_diag due_endings
  due-perm_op_send (handle rc) token w = omega (arith, endings-append)
  due-perm_op_send (failed e) token w = omega (arith, endings-append)

  due-report_back :
      (env : Env) (what : Text) (token : Option Text) (w : World)
      → due_endings id (report_back env what token w) ≡ due_endings id w
  unfolding report_back
  due-report_back env what (some t) w = due-perm_op_send env.answer t w
  due-report_back env what none w = elim (Bool-cases (is_sent env.answer)) [
    | inl e ↦ rw e refl
    | inr e ↦ rw e (due-push_diag id (what ++ lit ": send failed") w)
  ]

  due-own :
      (own : Option ℕ) (w : World)
      → due_endings id (own_client_id_or_cache own w).0 ≡ due_endings id w
  unfolding own_client_id_or_cache due_endings
  due-own none w = refl
  due-own (some own) w = elim (Bool-cases (own == 0)) [ inl e ↦ rw e refl | inr e ↦ rw e refl ]

  due-refuse :
      (token : Option Text) (why : Text) (w : World)
      → due_endings id (refuse token why w) ≡ due_endings id w
  due-refuse none why w = refl
  due-refuse (some t) why w = due-push_event id (perm_op t false (some why)) w refl

  pub due-on_send_message :
      (env : Env) (message : Text) (w : World)
      → due_endings id (on_send_message env message w) ≡ due_endings id w
  unfolding on_send_message push_sfx due_endings
  due-on_send_message env message w = elim (Bool-cases (is_sent env.answer)) [
    | inl e ↦ rw e refl
    | inr e ↦ rw e refl
  ]

  due-file_list :
      (env : Env) (cid : ℕ) (path token : Text) (r : SendResult) (w : World)
      → due_endings id (file_list env cid path token r w) ≡ due_endings id w
  unfolding file_list push_diag due_endings
  due-file_list env cid path token (handle rc) w = omega (arith, endings-append)
  due-file_list env cid path token (failed e) w = omega (arith, endings-append)

  due-file_op :
      (what token : Text) (r : SendResult) (w : World)
      → due_endings id (file_op what token r w) ≡ due_endings id w
  unfolding file_op push_diag due_endings
  due-file_op what token (handle rc) w = refl
  due-file_op what token (failed e) w = omega (arith, endings-append)

  pub due-on_own_perm_list : (w : World) → due_endings id (on_own_perm_list w) ≡ due_endings id w
  unfolding on_own_perm_list push_diag due_endings
  due-on_own_perm_list w =
      elim (Bool-cases
        (dbid_of (find (λ (c : TsClient). c.id == w.state.own_client_id) w.state.clients) == 0)) [
          | inl e ↦ rw e (omega (arith, endings-append))
          | inr e ↦ rw e (omega (arith, endings-append))
        ]

  pub due-tracked :
      (env : Env) (m : OutMessage) (token : Text) (w : World)
      → due_endings id (tracked env m token w) ≡ due_endings id w
  unfolding due_endings perm_op_send
  due-tracked env m token w = due-perm_op_send env.answer token (transmit m w)

  pub due-on_move_channel :
      (env : Env) (c ch : ℕ) (pw token : Option Text) (w : World)
      → due_endings id (on_move_channel env c ch pw token w) ≡ due_endings id w
  unfolding on_move_channel due_endings
  due-on_move_channel env c ch pw token w =
      let v = own_client_id_or_cache env.book_own w in
      due-report_back env (lit "move client " ++ decimal c) token (
        transmit (out_client_move c ch (encode env.encode_password pw))
          (arm_move (c == v.1) ch env.now v.0))
      ∙ due-arm_move (c == v.1) ch env.now v.0
      ∙ due-own env.book_own w
    where
      due-arm_move :
          (b : Bool) (ch now : ℕ) (w : World)
          → due_endings id (arm_move b ch now w) ≡ due_endings id w
      due-arm_move true ch now w = refl
      due-arm_move false ch now w = refl

  -- A report behind a request and a line, on the state with the own id.
  due-sent :
      (env : Env) (what line : Text) (token : Option Text) (m : OutMessage) (w : World)
      → due_endings id (report_back env what token (transmit m (push_diag line w)))
        ≡ due_endings id w
  unfolding due_endings
  due-sent env what line token m w =
      due-report_back env what token (transmit m (push_diag line w)) ∙ due-push_diag id line w

  due-skipped :
      (token : Option Text) (why line : Text) (w : World)
      → due_endings id (refuse token why (push_diag line w)) ≡ due_endings id w
  due-skipped token why line w = due-refuse token why (push_diag line w) ∙ due-push_diag id line w

  pub due-on_kick_client :
      (env : Env) (c : ℕ) (from_server : Bool) (reason : Text) (token : Option Text) (w : World)
      → due_endings id (on_kick_client env c from_server reason token w) ≡ due_endings id w
  unfolding on_kick_client
  due-on_kick_client env c from_server reason token w =
      let v = own_client_id_or_cache env.book_own w in
      elim (Bool-cases (c == v.1)) [
        | inl e ↦ rw e (due-skipped token _ _ v.0 ∙ due-own env.book_own w)
        | inr e ↦ rw e (
            due-sent env _ _ token (kick_message c from_server reason) v.0 ∙ due-own env.book_own w)
      ]

  pub due-on_ban_client :
      (env : Env) (c time : ℕ) (reason : Text) (token : Option Text) (w : World)
      → due_endings id (on_ban_client env c time reason token w) ≡ due_endings id w
  unfolding on_ban_client
  due-on_ban_client env c time reason token w =
      let v = own_client_id_or_cache env.book_own w in
      elim (Bool-cases (is_empty reason && time == 0)) [
        | inl z ↦ rw z (due-skipped token _ _ v.0 ∙ due-own env.book_own w)
        | inr z ↦ elim (Bool-cases (c == v.1)) [
          | inl e ↦ rw (z, e) (due-skipped token _ _ v.0 ∙ due-own env.book_own w)
          | inr e ↦
              rw (z, e)
                (due-sent env _ _ token (ban_message c time reason) v.0 ∙ due-own env.book_own w)
        ]
      ]

  pub due-on_ft_list :
      (env : Env) (cid : ℕ) (path : Text) (pw : Option Text) (token : Text) (w : World)
      → due_endings id (on_ft_list env cid path pw token w) ≡ due_endings id w
  unfolding on_ft_list
  due-on_ft_list env cid path pw token w = rw (due-file_list, due-push_wire_diag, due-push_diag)

  pub due-on_ft_create_dir :
      (env : Env) (cid : ℕ) (dirname : Text) (pw : Option Text) (token : Text) (w : World)
      → due_endings id (on_ft_create_dir env cid dirname pw token w) ≡ due_endings id w
  unfolding on_ft_create_dir
  due-on_ft_create_dir env cid dirname pw token w =
      rw (due-file_op, due-push_wire_diag, due-push_diag)

  pub due-on_ft_delete :
      (env : Env) (cid : ℕ) (names : List Text) (pw : Option Text) (token : Text) (w : World)
      → due_endings id (on_ft_delete env cid names pw token w) ≡ due_endings id w
  unfolding on_ft_delete
  due-on_ft_delete env cid names pw token w = rw (due-file_op, due-push_wire_diag, due-push_diag)
