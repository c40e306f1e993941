-- ===== src/EventLoop/Examples.antt =====
-- The theorems about the event loop, each at an input.
use nek.Common.{
  ℕ, ◌+◌, ◌<◌, ◌≡◌, refl, true, false, ◌&&◌, none, some, List, [], ◌∷◌, ◌++◌, length, if◌then◌else◌,
  ◌==◌, is_empty, replicate,
}
use nek.Common.Text.{lit}
use nek.Model.{World, F32, F32Ops, frame_size, initial_world, handle}
use nek.Calls.Session.{ts_disconnect, ts_connect}
use nek.Calls.Connect.{Opened, book_events, do_connect}
use nek.Calls.Delivery.{away}
use nek.Calls.Refusal.{FileOps, AnyCall, plain, on_files, make_dir, any_calls}
use nek.EventLoop.Env.{Env}
use nek.EventLoop.Moderation.{on_kick_client, on_ban_client, kick_message, ban_message}
use nek.EventLoop.Voice.{VoiceOps, on_send_audio}
use nek.EventLoop.Ending.{end_by_command, after_loop}
use nek.EventLoop.Dispatch.{begin_iteration}
use nek.EventLoop.Closing.{by_server, end_session}
use nek.EventLoop.AfterEnd.{any_calls-end_session}
use nek.Panic.{string}
use nek.EventLoop.Panicked.{loop_panicked, any_calls-loop_panicked}
use nek.EventLoop.StaleFlag.{reconnect_ends_at_once}
use nek.EventLoop.Targets.{own_id, sent-on_kick_client, sent-on_ban_client}
use nek.EventLoop.Frames.{waiting-on_send_audio}

-- A connected client, in its third connection.
abbrev online : World
online =
    let w = initial_world [] in
    record w {
      state = record w.state { connected = true; own_client_id = 4; audio_encoder = true };
      connection_generation = 3;
      event_loop_alive = true;
      perm_ops = (9, lit "t") ∷ [];
      command_tx = some (record { queue = []; receiver_alive = true });
    }

abbrev env : Env
env = record {
  now = 100;
  book_own = some 4;
  answer = handle 12;
  encode_password = λ t. t;
  wire = λ m. [];
}

-- Floating point as numbers, to run the voice detection.
abbrev numbers : F32Ops
numbers = record {
  add = λ a b. a + b;
  sub = λ a b. a;
  mul = λ a b. a;
  div = λ a b. a;
  sqrt = λ a. a;
  abs = λ a. a;
  powf = λ a b. a;
  clamp = λ a b c. a;
  ge = λ a b. true;
  gt = λ a b. false;
}

abbrev voice : VoiceOps
voice = record { ops = numbers; encode = λ seq frame. some frame; packet_sent = λ seq p. true }

abbrev samples : List F32
samples = replicate 1000 1

abbrev opened : Opened
opened = record {
  gains = record { max = λ a b. a; log10 = λ a. a; mul = λ a b. b };
  now = 100;
  server_name = lit "s";
  book = record {
    own_client = 5;
    clients = [];
    channels = [];
    book_server_groups = [];
    book_channel_groups = [];
  };
  identity = none;
  state_error = none;
}

abbrev files : FileOps
files = record { parse_json = λ t. some []; avatar_name = λ t. none; metadata = λ t. none }

abbrev calls : List AnyCall
calls = plain (away 1) ∷ on_files (make_dir 5 (some (lit "/a")) none (some (lit "t"))) ∷ []

any_calls-end_session_example :
    any_calls files calls (end_session by_server 3 online)
    ≡ (end_session by_server 3 online, 0 ∷ 0 ∷ [])
unfolding initial_world
any_calls-end_session_example = any_calls-end_session files calls by_server 3 online refl

reconnect_ends_at_once_example :
    let ended = after_loop (end_by_command 3 (ts_disconnect online)) in
    let connecting = (ts_connect (lit "host") (lit "me") none none ended).0 in
    let again = do_connect none true (book_events ∷ []) opened connecting in
    (begin_iteration 100 4 again).1 ≡ true
unfolding initial_world
reconnect_ends_at_once_example =
    reconnect_ends_at_once online 3 100 4 (lit "host") (lit "me") none none true [] opened refl

sent-on_kick_client_example :
    (on_kick_client env 7 true [] none online).sent
    ≡ online.sent ++ (if 7 == own_id env online then [] else kick_message 7 true [] ∷ [])
sent-on_kick_client_example = sent-on_kick_client env 7 true [] none online

sent-on_ban_client_example :
    (on_ban_client env 7 60 [] none online).sent
    ≡ online.sent
      ++ (if is_empty {A = ℕ} [] && 60 == 0
          then []
          else if 7 == own_id env online
          then []
          else ban_message 7 60 [] ∷ [])
sent-on_ban_client_example = sent-on_ban_client env 7 60 [] none online

waiting-on_send_audio_example :
    length (on_send_audio voice samples online).state.pcm_in < frame_size
waiting-on_send_audio_example = waiting-on_send_audio voice samples online

any_calls-loop_panicked_example :
    let v = loop_panicked 3 (string (lit "gone")) online in
    (any_calls files calls v ≡ (v, 0 ∷ 0 ∷ []))
    × ((ts_disconnect v).state.connected ≡ online.state.connected)
unfolding initial_world
any_calls-loop_panicked_example =
    any_calls-loop_panicked files calls 3 (string (lit "gone")) online refl refl
