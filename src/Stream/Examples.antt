-- ===== src/Stream/Examples.antt =====
-- The theorems about the event loop as a whole, each at an input.
use nek.Common.{ℕ, ◌≡◌, refl, true, false, ◌||◌, none, some, List, [], ◌∷◌, ◌++◌, any}
use nek.Common.Text.{lit}
use nek.Model.{World, F32Ops, TsError, initial_world, handle, text_message, ft_kind_download}
use nek.Model
use nek.Jitter.Receive.{DecoderOps}
use nek.EventLoop.Voice.{VoiceOps}
use nek.EventLoop.Closing.{IsClosed}
use nek.EventLoop.Ending.{is_current}
use nek.EventLoop.Dispatch.{is_disconnect}
use nek.Items.Done.{due_endings}
use nek.Items.Message.{TextPart}
use nek.Items.Transfer.{command_error}
use nek.Stream.Item.{
  StreamItem, Scene, message_event, text_messages, handle_items, filetransfer_failed,
  disconnected_temporarily,
}
use nek.Stream.Poll.{Polls, Polled, item, stream_end, timeout, poll_events}
use nek.Stream.Loop.{Round, iterate, event_loop}
use nek.Stream.Order.{polls_of, put_off_all, decode_all, poll_events_order}
use nek.Stream.Poll.{put_off}
use nek.Stream.Returns.{polls_over, iterate_returns}
use nek.Stream.Closing.{event_loop-IsClosed}
use nek.Stream.Tells.{ToldEnd, event_loop-ToldEnd}
use nek.Stream.Transfers.{due_endings-event_loop}

abbrev numbers : F32Ops
numbers = record {
  add = λ a b. a;
  sub = λ a b. a;
  mul = λ a b. a;
  div = λ a b. a;
  sqrt = λ a. a;
  abs = λ a. a;
  powf = λ a b. a;
  clamp = λ a b c. a;
  ge = λ a b. true;
  gt = λ a b. false;
}

abbrev voice : VoiceOps
voice = record { ops = numbers; encode = λ seq frame. some frame; packet_sent = λ seq p. true }

abbrev decoders : DecoderOps
decoders = record {
  ops = numbers;
  mono = λ packet. (true, packet);
  stereo = λ packet. (none, []);
  to_i16 = λ a. a;
}

abbrev scene : Scene
scene = record {
  gains = record { max = λ a b. a; log10 = λ a. a; mul = λ a b. b };
  now = 100;
  book = none;
}

-- A client in its third connection.
abbrev online : World
online =
    let w = initial_world [] in
    record w {
      state = record w.state { connected = true };
      connection_generation = 3;
      ft_lists = [];
      perm_ops = (9, lit "t") ∷ [];
    }

abbrev says : ℕ → StreamItem
says n = message_event (
    text_messages
      (record { invoker_name = []; invoker_id = n; target = 2; message = lit "hello" } ∷ []))

-- Two messages come in one iteration, and nothing in the next but the end.
abbrev rounds : List Round
rounds =
    record { now = 100; commands = []; polls = polls_of 100 scene (says 1) (says 2 ∷ []) }
    ∷ record {
      now = 120;
      commands = [];
      polls = record { poll_time = 120; first = stream_end; rest = []; scene = scene; raw = [] };
    }
    ∷ []

abbrev last_round : Round
last_round = record {
  now = 100;
  commands = [];
  polls = record {
    poll_time = 100;
    first = timeout;
    rest = item (says 1) ∷ stream_end ∷ [];
    scene = scene;
    raw = [];
  };
}

abbrev done_status : TsError
done_status = record { code = 0; debug = lit "Ok" }

-- Of two messages that come in one iteration the second is told first.
swapped_messages :
    (poll_events decoders 3
      (polls_of 100 scene (says 1) (says 2 ∷ []))
      online).0.state.pending_events
    ≡ text_message [] 2 2 (lit "hello") ∷ text_message [] 1 2 (lit "hello") ∷ []
unfolding poll_events nek.Stream.Poll.after_first nek.Stream.Poll.drain
    nek.Stream.Poll.finish_iteration nek.Stream.Poll.drain_raw_incoming handle_items
    nek.Stream.Item.handle_event_item nek.Stream.Item.handle_control_item
    nek.Stream.Item.handle_message nek.Items.Message.on_text_message
    nek.Jitter.Receive.decode_to_client_buffer initial_world
swapped_messages = refl

poll_events_order_example :
    poll_events decoders 3 (polls_of 100 scene (says 1) (says 2 ∷ [])) online ≡ (
      handle_items scene
          (put_off_all (says 2 ∷ []) ++ put_off (says 1))
          (decode_all decoders 100 (says 1 ∷ says 2 ∷ []) online),
      false,
    )
poll_events_order_example = poll_events_order decoders 3 100 scene (says 1) (says 2 ∷ []) online

iterate_returns_example : (iterate voice decoders 3 last_round online).1 ≡ (
    ((online.swipe_disconnect || online.state.disconnect_requested)
      || any (λ c. is_disconnect c.1) last_round.commands)
    || polls_over last_round.polls.first last_round.polls.rest)
iterate_returns_example = iterate_returns voice decoders 3 last_round online

event_loop-IsClosed_example :
    IsClosed (event_loop voice decoders 3 rounds online).0
    × ((event_loop voice decoders 3 rounds online).0.event_loop_alive ≡ false)
unfolding event_loop nek.Stream.Loop.run_rounds iterate nek.EventLoop.Dispatch.begin_iteration
    nek.EventLoop.Dispatch.loop_top nek.EventLoop.Dispatch.drain_commands poll_events
    nek.Stream.Poll.after_first nek.Stream.Poll.drain nek.Stream.Poll.finish_iteration
    nek.Stream.Poll.drain_raw_incoming handle_items nek.Stream.Item.handle_event_item
    nek.Stream.Item.handle_control_item nek.Stream.Item.handle_message
    nek.Items.Message.on_text_message nek.Jitter.Receive.decode_to_client_buffer
    nek.EventLoop.Ending.end_by_server nek.EventLoop.Ending.after_loop nek.Model.push_diag
    nek.Sound.schedule_sfx_teardown initial_world
event_loop-IsClosed_example = event_loop-IsClosed voice decoders 3 rounds online refl refl

event_loop-ToldEnd_example : ToldEnd (event_loop voice decoders 3 rounds online).0
unfolding event_loop nek.Stream.Loop.run_rounds iterate nek.EventLoop.Dispatch.begin_iteration
    nek.EventLoop.Dispatch.loop_top nek.EventLoop.Dispatch.drain_commands poll_events
    nek.Stream.Poll.after_first nek.Stream.Poll.drain nek.Stream.Poll.finish_iteration
    nek.Stream.Poll.drain_raw_incoming handle_items nek.Stream.Item.handle_event_item
    nek.Stream.Item.handle_control_item nek.Stream.Item.handle_message
    nek.Items.Message.on_text_message nek.Jitter.Receive.decode_to_client_buffer
    nek.EventLoop.Ending.end_by_server nek.EventLoop.Ending.after_loop nek.Model.push_diag
    nek.Sound.schedule_sfx_teardown initial_world
event_loop-ToldEnd_example = event_loop-ToldEnd voice decoders 3 rounds online refl refl

-- A download of the user, and a round in which its stream comes.
abbrev loading : World
loading = record online {
  ft_tasks =
      (
        1,
        record {
          kind = ft_kind_download;
          name = lit "a";
          local_path = lit "/tmp/a";
          total = 10;
          done = 4;
          cancel = false;
          client_ft_id = 5;
          last_event = none;
        },
      )
      ∷ [];
}

abbrev transfer_rounds : List Round
transfer_rounds =
    record {
      now = 100;
      commands = [];
      polls =
          polls_of 100 scene (disconnected_temporarily (lit "timeout"))
            (filetransfer_failed 5 (command_error done_status) ∷ says 1 ∷ []);
    }
    ∷ rounds

due_endings-event_loop_example :
    due_endings 1 (event_loop voice decoders 3 transfer_rounds loading).0 ≡ due_endings 1 loading
due_endings-event_loop_example = due_endings-event_loop 1 voice decoders 3 transfer_rounds loading
