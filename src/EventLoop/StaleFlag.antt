-- ===== src/EventLoop/StaleFlag.antt =====
-- A request to disconnect that outlives the session that it was made for.
use nek.Common.{
  ℕ, ◌≡◌, refl, ◌∙◌, Bool, true, Option, none, List, ◌∷◌, arith, inl, inr, Bool-cases, Option-cases,
  ◌==◌,
}
use nek.Common.Text.{Text}
use nek.Model.{World}
use nek.Book.Refresh.{refresh_from_book}
use nek.Calls.Session.{ts_disconnect, ts_connect}
use nek.Calls.Connect.{
  Opened, Early, own_database_id, book_events, do_connect, establish, with_book,
}
use nek.EventLoop.Ending.{end_by_command, after_loop}
use nek.EventLoop.Dispatch.{begin_iteration}

abbrev requested : World → Bool
requested w = w.state.disconnect_requested

ts_disconnect-requested :
    (w : World) → w.event_loop_alive ≡ true → requested (ts_disconnect w) ≡ true
unfolding ts_disconnect
ts_disconnect-requested w h = ground arith

end_by_command-requested : (g : ℕ) (w : World) → requested (end_by_command g w) ≡ requested w
unfolding end_by_command
end_by_command-requested g w = ground arith

after_loop-requested : (w : World) → requested (after_loop w) ≡ requested w
unfolding after_loop
after_loop-requested w = refl

ts_connect-requested :
    (address nickname : Text) (channel password : Option Text) (w : World)
    → requested (ts_connect address nickname channel password w).0 ≡ requested w
unfolding ts_connect
ts_connect-requested address nickname channel password w = ground arith

establish-requested :
    (started : Bool) (c : Opened) (w : World) → requested (establish started c w) ≡ requested w
unfolding establish refresh_from_book
establish-requested started c w = elim (Bool-cases (own_database_id c.book == 0)) [
  | inl e ↦ rw e
  | inr e ↦ rw e
]

with_book-requested :
    (started : Bool) (c : Opened) (w : World) → requested (with_book started c w) ≡ requested w
unfolding with_book
with_book-requested started c w = elim (Option-cases c.state_error) [
  | inl e ↦ rw (e, with_book) (establish-requested started c w)
  | inr (t, e) ↦ rw (e, with_book)
]

do_connect-requested :
    (started : Bool) (items : List Early) (c : Opened) (w : World)
    → requested (do_connect none started (book_events ∷ items) c w) ≡ requested w
unfolding do_connect
do_connect-requested started items c w = with_book-requested started c _

begin_iteration-requested :
    (now g : ℕ) (w : World) → requested w ≡ true → (begin_iteration now g w).1 ≡ true
unfolding begin_iteration
begin_iteration-requested now g w h = ground arith

-- The user disconnects while the loop runs, the loop ends by the queued command, and the user
-- connects anew: if the connection can be opened and its stream begins with the batch of the book,
-- its loop returns at the top of its first iteration, because the flag of the first request is
-- still set.
pub reconnect_ends_at_once :
    (w : World) (g now g' : ℕ) (address nickname : Text) (channel password : Option Text)
    (started : Bool) (items : List Early) (c : Opened)
    → w.event_loop_alive ≡ true
    → let ended = after_loop (end_by_command g (ts_disconnect w)) in
      let connecting = (ts_connect address nickname channel password ended).0 in
      let again = do_connect none started (book_events ∷ items) c connecting in
      (begin_iteration now g' again).1 ≡ true
reconnect_ends_at_once w g now g' address nickname channel password started items c h =
    begin_iteration-requested now g' _ (
      do_connect-requested started items c _
      ∙ ts_connect-requested address nickname channel password _
      ∙ after_loop-requested _
      ∙ end_by_command-requested g (ts_disconnect w)
      ∙ ts_disconnect-requested w h)
