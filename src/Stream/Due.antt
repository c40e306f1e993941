-- ===== src/Stream/Due.antt =====
-- No item of the stream ends a transfer twice, or forgets to.
use nek.Common.{
  ℕ, ◌≡◌, refl, ◌∙◌, arith, Option, none, some, List, [], ◌∷◌, ◌++◌, inl, inr, Bool-cases,
  Option-cases, ◌==◌, leb, ◌-◌,
}
use nek.Common.Text.{Text, lit}
use nek.Common.Table.{lookup}
use nek.Model.{World, TsEvent, TsFtEntry, TsError, channel_invalid_password, push_event, push_diag}
use nek.Sound.{push_sfx}
use nek.Book.Data.{
  Book, Event, message, property_added, property_changed, property_removed, to_server, to_channel,
  to_client, to_poke,
}
use nek.Book.Refresh.{GainOps, refresh_from_book}
use nek.Book.Trigger.{Batch, play_once, is_fired}
use nek.Book.Events.{tell_event, tell_message, update_roster, new_batch, on_book_events}
use nek.Book.Plain.{if_elim}
use nek.Book.Induction.{book_events-P}
use nek.Items.Answer.{
  Answer, resolve_perm_op, resolve_ft_op, resolve_transfer, resolve_listing, on_message_result,
  is_ok,
}
use nek.Items.Interruption.{fail_tokens}
use nek.Items.Listing.{
  schedule_ft_list_finish, add_rows, on_file_list, on_file_list_finished, schedule_all, code_of,
  mark_all,
}
use nek.Items.Message.{
  TextPart, PermPart, on_text_message, on_client_perm_list, attribute_rejection, on_error_entry,
  on_command_error, move_window,
}
use nek.Items.Done.{due_endings, endings, endings-append, due-push_diag}
use nek.Items.Done.Handlers.{due-resolve_transfer}
use nek.Stream.Item.{
  InMessage, handle_message, file_list, file_list_finished, text_messages, client_perm_list,
  command_errors, other_message,
}

module _ (id : ℕ) where
  pub due-push_event :
      (e : TsEvent) (w : World)
      → endings id (e ∷ []) ≡ 0
      → due_endings id (push_event e w) ≡ due_endings id w
  unfolding due_endings
  due-push_event e w h = omega (arith, endings-append id w.state.pending_events (e ∷ []), h)

  due-tell_event :
      (o : GainOps) (now : ℕ) (book : Option Book) (e : Event) (w : World)
      → due_endings id (tell_event o now book e w) ≡ due_endings id w
  unfolding tell_event tell_message update_roster refresh_from_book due_endings
  due-tell_event o now book (message (to_poke c) i text) w = due-push_event _ w refl
  due-tell_event o now book (message to_server i text) w = due-push_event _ w refl
  due-tell_event o now book (message to_channel i text) w = due-push_event _ w refl
  due-tell_event o now book (message (to_client c) i text) w = due-push_event _ w refl
  due-tell_event o now none (property_added p i r) w = refl
  due-tell_event o now none (property_changed p old i r) w = refl
  due-tell_event o now none (property_removed p old r) w = refl
  due-tell_event o now (some b) (property_added p i r) w = omega (arith, endings-append)
  due-tell_event o now (some b) (property_changed p old i r) w = omega (arith, endings-append)
  due-tell_event o now (some b) (property_removed p old r) w = omega (arith, endings-append)

  pub due-on_book_events :
      (o : GainOps) (now : ℕ) (book : Option Book) (events : List Event) (w : World)
      → due_endings id (on_book_events o now book events w) ≡ due_endings id w
  unfolding on_book_events due_endings push_sfx tell_event play_once
  due-on_book_events o now book events w =
      book_events-P (λ b. due_endings id b.world ≡ due_endings id w) (λ k b h p. p)
        (λ k b h p.
          if_elim (λ (c : Batch). due_endings id c.world ≡ due_endings id w)
            (is_fired k b.batch_fired) b _ p p)
        (λ c b p. p) (λ b p. p) o now book (λ e b p. due-tell_event o now book e b.world ∙ p) events
        (new_batch w) refl

  due-schedule :
      (code : ℕ) (w : World) → due_endings id (schedule_ft_list_finish code w) ≡ due_endings id w
  unfolding schedule_ft_list_finish due_endings
  due-schedule code w = elim (Option-cases (lookup code w.ft_lists)) [
    | inl e ↦ rw (e, schedule_ft_list_finish) refl
    | inr (p, e) ↦ elim (Bool-cases p.finalize_scheduled) [
      | inl f ↦ rw (e, schedule_ft_list_finish, f) refl
      | inr f ↦ rw (e, schedule_ft_list_finish, f) refl
    ]
  ]

  due-schedule_all :
      (codes : List ℕ) (w : World) → due_endings id (schedule_all codes w) ≡ due_endings id w
  unfolding schedule_all
  due-schedule_all [] w = refl
  due-schedule_all (c ∷ cs) w = due-schedule_all cs (schedule_ft_list_finish c w) ∙ due-schedule c w

  due-add_rows :
      (code : ℕ) (rows : List TsFtEntry) (w : World)
      → due_endings id (add_rows code rows w) ≡ due_endings id w
  unfolding add_rows push_diag due_endings
  due-add_rows code rows w = elim (Option-cases (lookup code w.ft_lists)) [
    | inl e ↦ rw (e, add_rows) (omega (arith, endings-append))
    | inr (p, e) ↦ rw (e, add_rows) (omega (arith, endings-append))
  ]

  due-on_file_list :
      (rc : Option Text) (rows : List TsFtEntry) (w : World)
      → due_endings id (on_file_list rc rows w) ≡ due_endings id w
  unfolding on_file_list
  due-on_file_list rc rows w = elim (Option-cases (code_of rc)) [
    | inl e ↦ rw (e, on_file_list) refl
    | inr (code, e) ↦ rw (e, on_file_list) (due-add_rows code rows w)
  ]

  due-on_file_list_finished :
      (parts : List (ℕ × Text)) (w : World)
      → due_endings id (on_file_list_finished parts w) ≡ due_endings id w
  unfolding on_file_list_finished due_endings
  due-on_file_list_finished parts w =
      due-schedule_all (mark_all parts w.ft_lists).1
        (record w { ft_lists = (mark_all parts w.ft_lists).0 })

  due-on_text_message :
      (parts : List TextPart) (w : World)
      → due_endings id (on_text_message parts w) ≡ due_endings id w
  unfolding on_text_message
  due-on_text_message [] w = refl
  due-on_text_message (p ∷ ps) w = due-on_text_message ps _ ∙ due-push_event _ w refl

  due-on_client_perm_list :
      (parts : List PermPart) (w : World)
      → due_endings id (on_client_perm_list parts w) ≡ due_endings id w
  unfolding on_client_perm_list push_diag due_endings
  due-on_client_perm_list parts w = omega (arith, endings-append)

  due-attribute_rejection :
      (now : ℕ) (move : Option (ℕ × ℕ)) (w : World)
      → due_endings id (attribute_rejection now move w) ≡ due_endings id w
  unfolding attribute_rejection push_diag due_endings
  due-attribute_rejection now none w = omega (arith, endings-append)
  due-attribute_rejection now (some (cid, at)) w = elim (Bool-cases (leb (now - at) move_window)) [
    | inl e ↦ rw e (omega (arith, endings-append))
    | inr e ↦ rw e (omega (arith, endings-append))
  ]

  due-on_error_entry :
      (now : ℕ) (e : TsError) (w : World)
      → due_endings id (on_error_entry now e w) ≡ due_endings id w
  unfolding on_error_entry
  due-on_error_entry now e w = elim (Bool-cases (e.code == channel_invalid_password)) [
    | inl c ↦ rw c (due-attribute_rejection now w.state.pending_move w)
    | inr c ↦ rw c (due-push_diag id (lit "server rejected command: " ++ e.debug) w)
  ]

  due-on_command_error :
      (now : ℕ) (es : List TsError) (w : World)
      → due_endings id (on_command_error now es w) ≡ due_endings id w
  unfolding on_command_error
  due-on_command_error now [] w = refl
  due-on_command_error now (e ∷ es) w =
      due-on_command_error now es (on_error_entry now e w) ∙ due-on_error_entry now e w

  pub due-handle_message :
      (now : ℕ) (m : InMessage) (w : World)
      → due_endings id (handle_message now m w) ≡ due_endings id w
  unfolding handle_message
  due-handle_message now (file_list rc rows) w = due-on_file_list rc rows w
  due-handle_message now (file_list_finished parts) w = due-on_file_list_finished parts w
  due-handle_message now (text_messages parts) w = due-on_text_message parts w
  due-handle_message now (client_perm_list parts) w = due-on_client_perm_list parts w
  due-handle_message now (command_errors errors) w = due-on_command_error now errors w
  due-handle_message now other_message w = refl

  due-resolve_perm_op :
      (rc : ℕ) (res : Answer) (w : World)
      → due_endings id (resolve_perm_op rc res w) ≡ due_endings id w
  unfolding resolve_perm_op push_diag due_endings
  due-resolve_perm_op rc res w = elim (Option-cases (lookup rc w.perm_ops)) [
    | inl e ↦ rw (e, resolve_perm_op) refl
    | inr (t, e) ↦ rw (e, resolve_perm_op) (omega (arith, endings-append))
  ]

  due-resolve_ft_op :
      (rc : ℕ) (res : Answer) (w : World)
      → due_endings id (resolve_ft_op rc res w) ≡ due_endings id w
  unfolding resolve_ft_op push_diag due_endings
  due-resolve_ft_op rc res w = elim (Option-cases (lookup rc w.ft_ops)) [
    | inl e ↦ rw (e, resolve_ft_op) refl
    | inr (t, e) ↦ rw (e, resolve_ft_op) (omega (arith, endings-append))
  ]

  due-resolve_listing :
      (rc : ℕ) (res : Answer) (w : World)
      → due_endings id (resolve_listing rc res w) ≡ due_endings id w
  unfolding resolve_listing due_endings
  due-resolve_listing rc res w = elim (Option-cases (lookup rc w.ft_lists)) [
    | inl e ↦ rw (e, resolve_listing) refl
    | inr (p, e) ↦ elim (Bool-cases (is_ok res)) [
      | inl o ↦ rw (e, resolve_listing, o) refl
      | inr o ↦ rw (e, resolve_listing, o, due-schedule) refl
    ]
  ]

  pub due-on_message_result :
      (rc : ℕ) (res : Answer) (w : World)
      → due_endings id (on_message_result rc res w) ≡ due_endings id w
  unfolding on_message_result
  due-on_message_result rc res w =
      let a = resolve_perm_op rc res w in
      let b = resolve_ft_op rc res a in
      due-resolve_listing rc res (resolve_transfer rc res b)
      ∙ due-resolve_transfer id rc res b
      ∙ due-resolve_ft_op rc res a
      ∙ due-resolve_perm_op rc res w

  pub due-fail_tokens :
      (tokens : List Text) (w : World) → due_endings id (fail_tokens tokens w) ≡ due_endings id w
  unfolding fail_tokens
  due-fail_tokens [] w = refl
  due-fail_tokens (t ∷ ts) w = due-fail_tokens ts _ ∙ due-push_event _ w refl
