-- ===== src/Book/Induction.antt =====
-- What every event of a batch keeps: a predicate that the few ways of changing the state of a
-- batch keep (a sound, a sound that is played once, a mark) is kept by the whole batch.
use nek.Common.{
  ℕ, ◌≡◌, refl, Bool, true, Option, none, some, List, [], ◌∷◌, any, if◌then◌else◌, ◌==◌, is_some,
  not,
}
use nek.Common.Table.{lookup}
use nek.Model.{Reason, kick_channel, kick_server, kick_server_ban}
use nek.Sound.Kind
use nek.Book.Data.{
  Book, BookClient, Event, PropertyId, PropertyValue, MessageTarget, Invoker, message, to_server,
  to_channel, to_client, to_poke, property_added, property_changed, property_removed, id_client,
  id_channel, client_channel, client_is_recording, client_input_muted, client_output_muted,
  client_away_message, client_channel_group, channel_parent, channel_edit, value_channel_id,
  value_bool, value_client, other_value,
}
use nek.Book.Refresh.{GainOps}
use nek.Book.Trigger.{
  Batch, View, play, play_opt, play_once, play_movement, maybe_trigger_sfx, trigger,
  trigger_message, trigger_client_added, trigger_client_moved, trigger_recording, trigger_own_state,
  trigger_client_removed, trigger_own_removed, trigger_changed, trigger_own_move, is_subscription,
  is_here, added_sound, move_sound, removed_sound, suppress, by_other, records_in, is_kick_channel,
  real_invoker, switch_sound, away_state_sound,
}
use nek.Book.Events.{tell_batch, sound_event, book_events, view_of}
use nek.Book.Plain.{
  is_once, is_plain, AllPlain, if_elim, added_sound-AllPlain, removed_sound-AllPlain,
  move_sound-AllPlain,
}

module _ (P : Batch → Type 0)
    (play-P : (kind : ℕ) (b : Batch) → is_plain kind ≡ true → P b → P (play kind b))
    (once-P : (kind : ℕ) (b : Batch) → is_once kind ≡ true → P b → P (play_once kind b))
    (mark-P : (cid : ℕ) (b : Batch) → P b → P (record b { batch_handled = cid ∷ b.batch_handled }))
    (suppress-P : (b : Batch) → P b → P (suppress b)) where
  play_opt-P : (s : Option ℕ) (b : Batch) → AllPlain s → P b → P (play_opt s b)
  play_opt-P none b h p = p
  play_opt-P (some kind) b h p = play-P kind b h p

  play_movement-P :
      (cid : ℕ) (s : Option ℕ) (b : Batch) → AllPlain s → P b → P (play_movement cid s b)
  unfolding play_movement
  play_movement-P cid s b h p =
      if_elim P (any (λ c. c == cid) b.batch_handled) b _ p
        (play_opt-P s (record b { batch_handled = cid ∷ b.batch_handled }) h (mark-P cid b p))

  message-P :
      (v : View) (t : MessageTarget) (i : Invoker) (b : Batch) → P b → P (trigger_message v t i b)
  unfolding trigger_message
  message-P v (to_poke c) i b p = play-P _ b refl p
  message-P v to_server i b p = if_elim P (i.invoker_id == v.own) b _ p (play-P _ b refl p)
  message-P v to_channel i b p = if_elim P (i.invoker_id == v.own) b _ p (play-P _ b refl p)
  message-P v (to_client c) i b p = if_elim P (i.invoker_id == v.own) b _ p (play-P _ b refl p)

  lookup-P :
      (m : Option BookClient) (b : Batch) (f : BookClient → Batch)
      → P b
      → ((c : BookClient) → P (f c))
      → P (elim m [ none ↦ b | some c ↦ f c ])
  lookup-P none b f p q = p
  lookup-P (some c) b f p q = q c

  added-P :
      (v : View) (cid : ℕ) (r : Option Reason) (b : Batch)
      → P b
      → P (trigger_client_added v cid r b)
  unfolding trigger_client_added
  added-P v cid r b p = if_elim P (cid == v.own) b _ p (
      if_elim P (is_subscription r) b _ p (
        lookup-P (lookup cid v.book.clients) b _ p (λ c.
          if_elim P (is_here v.own_channel c.channel) _ b
            (play_movement-P cid (added_sound r) b (added_sound-AllPlain r) p) p)))

  own_move-P :
      (v : View) (to : ℕ) (i : Option Invoker) (r : Option Reason) (b : Batch)
      → P b
      → P (trigger_own_move v to i r b)
  unfolding trigger_own_move
  own_move-P v to i r b p =
      let q =
        if_elim P (records_in v.own to v.book.clients) (play Kind.neutral_recording_active b) b
          (play-P _ b refl p) p in
      if_elim P (is_kick_channel r) _ _ (play-P _ b refl p) (
        play-P (if by_other v.own i then Kind.you_were_moved else Kind.channel_switched) _
          (if_elim (λ k. is_plain k ≡ true) (by_other v.own i) _ _ refl refl) q)

  moved-P :
      (v : View) (cid : ℕ) (old : PropertyValue) (i : Option Invoker) (r : Option Reason)
      (b : Batch)
      → P b
      → P (trigger_client_moved v cid old i r b)
  unfolding trigger_client_moved
  moved-P v cid (value_channel_id from) i r b p = lookup-P (lookup cid v.book.clients) b _ p (λ c.
      if_elim P (from == c.channel) b _ p (
        if_elim P (cid == v.own) _ _ (own_move-P v c.channel i r b p) (
          play_movement-P cid (move_sound v.own_channel from c.channel r) b
            (move_sound-AllPlain v.own_channel from c.channel r) p)))
  moved-P v cid _ i r b p = p

  recording-P :
      (v : View) (cid : ℕ) (old : PropertyValue) (b : Batch)
      → P b
      → P (trigger_recording v cid old b)
  unfolding trigger_recording
  recording-P v cid (value_bool old) b p = lookup-P (lookup cid v.book.clients) b _ p (λ c.
      if_elim P (cid == v.own) b _ p (
        if_elim P (not (is_here v.own_channel c.channel)) b _ p (
          if_elim P c.is_recording _ _ (if_elim P old b _ p (play-P _ b refl p))
            (if_elim P old _ b (play-P _ b refl p) p))))
  recording-P v cid (value_channel_id c) b p = lookup-P (lookup cid v.book.clients) b _ p (λ c. p)
  recording-P v cid (value_client c) b p = lookup-P (lookup cid v.book.clients) b _ p (λ c. p)
  recording-P v cid other_value b p = lookup-P (lookup cid v.book.clients) b _ p (λ c. p)

  switch-P :
      (field : BookClient → Bool) (on off : ℕ) (c : Option BookClient) (b : Batch)
      → is_plain on ≡ true
      → is_plain off ≡ true
      → P b
      → P (play_opt (switch_sound field on off c) b)
  switch-P field on off none b h k p = p
  switch-P field on off (some c) b h k p =
      play_opt-P (if field c then some on else some off) b
        (if_elim AllPlain (field c) (some on) (some off) h k) p

  away-P : (c : Option BookClient) (b : Batch) → P b → P (play (away_state_sound c) b)
  away-P none b p = play-P _ b refl p
  away-P (some c) b p =
      play-P _ b (if_elim (λ k. is_plain k ≡ true) (is_some c.away_message) _ _ refl refl) p

  own_state-P :
      (v : View) (id : PropertyId) (i : Option Invoker) (b : Batch)
      → P b
      → P (trigger_own_state v id i b)
  unfolding trigger_own_state
  own_state-P v (client_input_muted cid) i b p =
      if_elim P (cid == v.own) _ b
        (switch-P (λ c. c.input_muted) _ _ (lookup cid v.book.clients) b refl refl p) p
  own_state-P v (client_output_muted cid) i b p =
      if_elim P (cid == v.own) _ b
        (switch-P (λ c. c.output_muted) _ _ (lookup cid v.book.clients) b refl refl p) p
  own_state-P v (client_away_message cid) i b p =
      if_elim P (cid == v.own) _ b (away-P (lookup cid v.book.clients) b p) p
  own_state-P v (client_channel_group cid) i b p =
      if_elim P (cid == v.own) _ b (if_elim P (real_invoker v.own i) _ b (play-P _ b refl p) p) p
  own_state-P v _ i b p = p

  own_removed-P : (r : Option Reason) (b : Batch) → P b → P (trigger_own_removed r b)
  unfolding trigger_own_removed
  own_removed-P (some kick_channel) b p = play-P _ b refl p
  own_removed-P (some kick_server) b p = play-P _ (suppress b) refl (suppress-P b p)
  own_removed-P (some kick_server_ban) b p = play-P _ (suppress b) refl (suppress-P b p)
  own_removed-P _ b p = p

  removed-P :
      (v : View) (cid : ℕ) (old : PropertyValue) (r : Option Reason) (b : Batch)
      → P b
      → P (trigger_client_removed v cid old r b)
  unfolding trigger_client_removed
  removed-P v cid (value_client c) r b p = if_elim P (cid == v.own) _ _ (own_removed-P r b p) (
      if_elim P (is_here v.own_channel c.channel) _ b
        (play_movement-P cid (removed_sound r) b (removed_sound-AllPlain r) p) p)
  removed-P v cid _ r b p = p

  changed-P :
      (v : View) (id : PropertyId) (old : PropertyValue) (i : Option Invoker) (r : Option Reason)
      (b : Batch)
      → P b
      → P (trigger_changed v id old i r b)
  unfolding trigger_changed
  changed-P v (client_channel cid) old i r b p = moved-P v cid old i r b p
  changed-P v (client_is_recording cid) old i r b p = recording-P v cid old b p
  changed-P v (channel_parent c) old i r b p = once-P Kind.channel_moved b refl p
  changed-P v (channel_edit e c) old i r b p = once-P Kind.channel_edited b refl p
  changed-P v id old i r b p = own_state-P v id i b p

  trigger-P : (v : View) (e : Event) (b : Batch) → P b → P (trigger v e b)
  unfolding trigger
  trigger-P v (message t i text) b p = message-P v t i b p
  trigger-P v (property_added (id_client cid) i r) b p = added-P v cid r b p
  trigger-P v (property_added (id_channel c) (some i) r) b p = play-P _ b refl p
  trigger-P v (property_added _ i r) b p = p
  trigger-P v (property_changed id old i r) b p = changed-P v id old i r b p
  trigger-P v (property_removed (id_client cid) old r) b p = removed-P v cid old r b p
  trigger-P v (property_removed (id_channel c) old r) b p = play-P _ b refl p
  trigger-P v (property_removed _ old r) b p = p

  pub sound_event-P : (book : Option Book) (e : Event) (b : Batch) → P b → P (sound_event book e b)
  unfolding maybe_trigger_sfx
  sound_event-P none e b p = p
  sound_event-P (some book) e b p =
      if_elim P b.world.sfx_armed _ b (trigger-P (view_of book) e b p) p

  pub book_events-P :
      (o : GainOps) (now : ℕ) (book : Option Book)
      → ((e : Event) (b : Batch) → P b → P (tell_batch o now book e b))
      → (events : List Event) (b : Batch) → P b
      → P (book_events o now book events b)
  unfolding book_events
  book_events-P o now book tell-P [] b p = p
  book_events-P o now book tell-P (e ∷ es) b p =
      book_events-P o now book tell-P es (sound_event book e (tell_batch o now book e b))
        (sound_event-P book e (tell_batch o now book e b) (tell-P e b p))
