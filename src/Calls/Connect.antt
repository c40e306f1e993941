-- ===== src/Calls/Connect.antt =====
-- `do_connect` (native/src/api.rs): what changes when a connection was made, and when it failed.
-- The library's part is an argument: what the stream of the new connection gives until the first
-- batch of the book, and the book.
use nek.Common.{
  ℕ, ◌+◌, ◌%◌, ◌^◌, Bool, true, false, Option, none, some, List, [], ◌∷◌, ◌++◌, if◌then◌else◌, ◌==◌,
}
use nek.Common.Text.{Text, lit, decimal}
use nek.Model.{
  World, error, connected, push_event, spawn, maintenance, session, transmit, out_subscribe_all,
  out_server_group_list_request, out_channel_group_list_request, out_client_perm_list_request,
}
use nek.Common.Table.{lookup}
use nek.Book.Data.{Book, BookClient}
use nek.Book.Refresh.{GainOps, refresh_from_book}
use nek.Sound.{restart_output_stream, push_sfx}
use nek.Sound.Kind.{connected as sfx_connected}

-- What the new connection's stream gives, or that the time ran out.
pub data Early : Type 0 where
  book_events : Early
  time_out : Early
  identity_level_increasing : ℕ → Early
  stream_error : Text → Early
  other_item : Early

-- The end of the wait: the first batch, no batch, or an error.
pub data Waited : Type 0 where
  ready no_book_events timed_out : Waited
  broken : Text → Waited

unfoldable pub await_book : List Early → World → World × Waited
await_book [] w = (w, no_book_events)
await_book (book_events ∷ items) w = (w, ready)
await_book (time_out ∷ items) w = (w, timed_out)
await_book (identity_level_increasing l ∷ items) w =
    await_book items (push_event (error (lit "Identity level " ++ decimal l ++ lit "...")) w)
await_book (stream_error e ∷ items) w = (w, broken e)
await_book (other_item ∷ items) w = await_book items w

-- A connection whose book is there: what the roster is made with and of, the name of the server,
-- and the identity that the options hold.
pub record Opened : Type 0 where
  pub gains : GainOps
  pub now : ℕ
  pub server_name : Text
  pub book : Book
  pub identity : Option Text
  -- the error of `get_state`, which is asked twice while the book stays the same
  pub state_error : Option Text

-- 0 where the own client is not in the book.
abbrev database_id_of : Option BookClient → ℕ
database_id_of none = 0
database_id_of (some c) = c.database_id

abbrev pub own_database_id : Book → ℕ
own_database_id book = database_id_of (lookup book.own_client book.clients)

-- What the server is asked for before the book is looked at.
abbrev ask_groups : World → World
ask_groups w =
    transmit out_channel_group_list_request
      (transmit out_server_group_list_request (transmit out_subscribe_all w))

abbrev ask_perms : ℕ → World → World
ask_perms own_dbid w =
    if own_dbid == 0 then w else transmit (out_client_perm_list_request own_dbid) w

abbrev keep_identity : Option Text → Option Text → Option Text
keep_identity none old = old
keep_identity (some id) old = some id

-- The session begins, with a command queue of its own. `started` tells of the output stream.
unfoldable pub establish : Bool → Opened → World → World
unfolding refresh_from_book restart_output_stream push_sfx
establish started c w =
    let (v, (channels, clients)) =
      refresh_from_book c.gains c.now c.book (ask_perms (own_database_id c.book) w) in
    let generation : ℕ = (v.connection_generation + 1) % 2 ^ 64 in
    spawn 0 (session generation) (
      push_sfx sfx_connected (
        restart_output_stream started (
          spawn 0 maintenance (
            push_event (connected c.server_name c.book.own_client) (record v {
              connection_generation = generation;
              command_tx = some (record { queue = []; receiver_alive = true });
              identity_stash = keep_identity c.identity v.identity_stash;
              connection_stash = true;
              state = record v.state {
                connecting = false;
                connected = true;
                server_name = c.server_name;
                own_client_id = c.book.own_client;
                channels = channels;
                clients = clients;
              };
            })))))

-- The task of `ts_connect` tells of the failure.
abbrev pub connect_failed : Text → World → World
connect_failed e w =
    push_event (error e) (record w { state = record w.state { connecting = false } })

abbrev disarm : World → World
disarm w = record w {
  sfx_armed = false;
  sfx_suppress_disconnect = false;
  sfx_deferred_teardown = false;
}

unfoldable pub with_book : Bool → Opened → World → World
unfolding establish
with_book started c w = elim c.state_error [
  | none ↦ establish started c w
  | some e ↦ connect_failed e w
]

abbrev finish : Bool → Opened → World × Waited → World
finish started c (w, ready) = with_book started c (ask_groups w)
finish started c (w, no_book_events) = connect_failed (lit "No BookEvents") w
finish started c (w, timed_out) = connect_failed (lit "Timeout") w
finish started c (w, broken e) = connect_failed e w

-- The identity is taken from the stash; `opened` is the error of the library's `connect`, if any.
unfoldable pub do_connect : Option Text → Bool → List Early → Opened → World → World
unfolding await_book establish
do_connect (some e) started items c w = connect_failed e (record w { identity_stash = none })
do_connect none started items c w =
    finish started c (await_book items (disarm (record w { identity_stash = none })))
