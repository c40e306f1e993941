-- ===== src/Stream/Poll.antt =====
-- The second half of an iteration: it polls the stream, decodes the audio at once, puts the other
-- items off until nothing more is there, and then handles them.
use nek.Common.{ℕ, Bool, true, false, List, [], ◌∷◌, ◌++◌}
use nek.Common.Text.{Text, lit}
use nek.Model.{World, push_diag}
use nek.Jitter.Receive.{DecoderOps, decode_to_client_buffer}
use nek.EventLoop.Ending.{end_by_error, end_by_server}
use nek.Stream.Item.{StreamItem, Scene, audio, handle_items}

-- What a poll with a timeout gives.
pub data Polled : Type 0 where
  item : StreamItem → Polled
  stream_error : Text → Polled
  stream_end : Polled
  timeout : Polled

-- How the draining of the stream ends.
pub data Drained : Type 0 where
  dry ended : Drained
  errored : Text → Drained

abbrev pub decode : DecoderOps → ℕ → StreamItem → World → World
unfolding decode_to_client_buffer
decode d now (audio from_id seq packet) w = decode_to_client_buffer d now from_id seq packet w
decode d now _ w = w

-- An item that waits until the stream is drained; audio does not.
abbrev pub put_off : StreamItem → List StreamItem
put_off (audio from_id seq packet) = []
put_off i = i ∷ []

-- The loop over the items that are there already. A list that is at its end stands for a timeout.
unfoldable pub drain : DecoderOps → ℕ → List Polled → World → World × (List StreamItem × Drained)
unfolding decode_to_client_buffer
drain d now [] w = (w, ([], dry))
drain d now (item i ∷ polls) w =
    let (v, (items, end)) = drain d now polls (decode d now i w) in (v, (put_off i ++ items, end))
drain d now (stream_error e ∷ polls) w = (w, ([], errored e))
drain d now (stream_end ∷ polls) w = (w, ([], ended))
drain d now (timeout ∷ polls) w = (w, ([], dry))

-- The lines that the server sent are shown.
unfoldable pub drain_raw_incoming : List Text → World → World
unfolding push_diag
drain_raw_incoming [] w = w
drain_raw_incoming (line ∷ lines) w =
    drain_raw_incoming lines (push_diag (lit "raw in: " ++ line) w)

-- What one iteration polls: the time, the first poll, the polls after it, what the items are
-- handled with, and the raw lines.
pub record Polls : Type 0 where
  pub poll_time : ℕ
  pub first : Polled
  pub rest : List Polled
  pub scene : Scene
  pub raw : List Text

-- The end of an iteration, behind the draining; `deferred` came first.
unfoldable pub finish_iteration :
    ℕ → Polls → List StreamItem → World × (List StreamItem × Drained) → World × Bool
unfolding handle_items drain_raw_incoming end_by_error end_by_server
finish_iteration g p deferred (w, (items, errored e)) = (end_by_error g e w, true)
finish_iteration g p deferred (w, (items, dry)) =
    (drain_raw_incoming p.raw (handle_items p.scene deferred (handle_items p.scene items w)), false)
finish_iteration g p deferred (w, (items, ended)) = (
  end_by_server g
      (drain_raw_incoming p.raw (handle_items p.scene deferred (handle_items p.scene items w))),
  true,
)

-- What follows on the first poll.
unfoldable pub after_first : DecoderOps → ℕ → Polls → Polled → World → World × Bool
unfolding drain finish_iteration end_by_error end_by_server decode_to_client_buffer
after_first d g p (stream_error e) w = (end_by_error g e w, true)
after_first d g p stream_end w = (end_by_server g w, true)
after_first d g p timeout w = finish_iteration g p [] (drain d p.poll_time p.rest w)
after_first d g p (item i) w =
    finish_iteration g p (put_off i) (drain d p.poll_time p.rest (decode d p.poll_time i w))

-- The new state, and whether the loop returned.
unfoldable pub poll_events : DecoderOps → ℕ → Polls → World → World × Bool
unfolding after_first
poll_events d g p w = after_first d g p p.first w
