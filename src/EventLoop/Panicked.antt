-- ===== src/EventLoop/Panicked.antt =====
-- What is left when the task of an event loop panics (the end of `do_connect` in
-- native/src/api.rs): the panic is caught, and the receiver of the commands is gone.
use nek.Common.{
  ℕ, ◌≡◌, refl, ap, ◌∙◌, true, false, List, length, replicate, Option, none, some, [], ◌++◌,
  if◌then◌else◌, inl, inr, Bool-cases,
}
use nek.Common.Text.{Text, lit}
use nek.Model.{World, CommandQueue, Command, push_diag}
use nek.Panic.{PanicPayload, payload_of}
use nek.Calls.Delivery.{delivered, queued}
use nek.Calls.Session.{ts_disconnect}
use nek.Calls.Refusal.{FileOps, AnyCall, any_calls, NoLoop, any_calls_refused}
use nek.EventLoop.Ending.{is_current}

abbrev drop_receiver : Option CommandQueue → Option CommandQueue
drop_receiver none = none
drop_receiver (some tx) = some (record { queue = []; receiver_alive = false })

-- COMMAND_TX holds the sender of the newest connection.
abbrev lose_receiver : ℕ → World → World
lose_receiver g w =
    if is_current g w then record w { command_tx = drop_receiver w.command_tx } else w

abbrev pub panic_text : PanicPayload → Text
panic_text p = lit "event_loop PANICKED: " ++ payload_of p

unfoldable pub loop_panicked : ℕ → PanicPayload → World → World
unfolding push_diag
loop_panicked g p w = record (push_diag (panic_text p) (lose_receiver g w)) {
  event_loop_alive = false;
}

no_receiver :
    (cmd : Command) (w : World) (tx : Option CommandQueue) → queued cmd w (drop_receiver tx) ≡ none
no_receiver cmd w none = refl
no_receiver cmd w (some tx) = refl

nowhere :
    (cmd : Command) (w : World) (tx : Option CommandQueue)
    → w.command_tx ≡ drop_receiver tx
    → delivered cmd w ≡ none
nowhere cmd w tx h = elim (Bool-cases w.state.connected) [
  | inl e ↦ simp e (ap (queued cmd w) h ∙ no_receiver cmd w tx)
  | inr e ↦ simp e
]

NoLoop-panicked :
    (g : ℕ) (p : PanicPayload) (w : World) → is_current g w ≡ true → NoLoop (loop_panicked g p w)
unfolding loop_panicked push_diag
NoLoop-panicked g p w h = record {
  no_files = rw h (elim (Bool-cases w.state.connected) [ inl e ↦ simp e | inr e ↦ simp e ]);
  nowhere = λ cmd. nowhere cmd (loop_panicked g p w) w.command_tx (rw h refl);
}

-- Where no connection is stashed, a panic of the newest loop leaves a session that cannot be used
-- and cannot be left: any calls that queue a command (on messages, moves, mute, microphone samples,
-- away, pokes, kicks, bans, groups, permissions, listings, directories, deletes, downloads, uploads
-- and avatars, not the two to disconnect), one after the other, change nothing and return 0 each,
-- and behind `ts_disconnect` the session still is as connected as it was before the panic.
pub any_calls-loop_panicked :
    (o : FileOps) (cs : List AnyCall) (g : ℕ) (p : PanicPayload) (w : World)
    → is_current g w ≡ true
    → w.connection_stash ≡ false
    → let v = loop_panicked g p w in
      (any_calls o cs v ≡ (v, replicate (length cs) 0))
      × ((ts_disconnect v).state.connected ≡ w.state.connected)
unfolding loop_panicked push_diag ts_disconnect
any_calls-loop_panicked o cs g p w h s =
    (any_calls_refused o cs (loop_panicked g p w) (NoLoop-panicked g p w h), rw (h, s) refl)
