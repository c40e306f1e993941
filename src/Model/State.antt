-- ===== src/Model/State.antt =====
-- The statics of native/src/lib.rs. `TsConnection` is what `STATE` holds; `World` is the state
-- of the whole process: every static, the tasks that were spawned and have yet to run, and the
-- requests that went out on the connection. Each lock of the source is held for one block of
-- the model at most, so a block is one update of the record.
use nek.Common.{ℕ, Bool, false, Option, none, List, []}
use nek.Common.Text.{Text}
use nek.Common.Table.{Table}
use nek.Model.Roster.{F32, TsChannel, TsClient, TsServerGroup, TsChannelGroup, TsPerm}
use nek.Model.Transfer.{FtTask, PendingFtList, PendingFtOp}
use nek.Model.Event.{TsEvent}
use nek.Model.Commands.{Command}
use nek.Model.Wire.{OutMessage}
use nek.Model.Jitter.{ClientJitterBuffer, f32_one}

pub record TsConnection : Type 0 where
  pub connected : Bool
  pub connecting : Bool
  pub server_name : Text
  pub nickname : Text
  pub own_client_id : ℕ
  pub channels : List TsChannel
  pub clients : List TsClient
  pub server_groups : List TsServerGroup
  pub channel_groups : List TsChannelGroup
  pub own_perms : List TsPerm
  pub pending_events : List TsEvent
  pub pcm_in : List F32
  -- the encoder is the codec library's; it is known by whether it is there
  pub audio_encoder : Bool
  pub audio_seq : ℕ
  pub vad_threshold : F32
  pub vad_enabled : Bool
  pub vad_hold : ℕ
  pub voice_active : Bool
  pub disconnect_requested : Bool
  pub mic_gain : F32
  pub talking_clients : Table ℕ
  pub pending_move : Option (ℕ × ℕ)
  pub client_volumes : List (Text × F32)

unfoldable pub ts_connection_new : TsConnection
ts_connection_new = record {
  connected = false;
  connecting = false;
  server_name = [];
  nickname = [];
  own_client_id = 0;
  channels = [];
  clients = [];
  server_groups = [];
  channel_groups = [];
  own_perms = [];
  pending_events = [];
  pcm_in = [];
  audio_encoder = false;
  audio_seq = 0;
  vad_threshold = 0;
  vad_enabled = false;
  vad_hold = 0;
  voice_active = false;
  disconnect_requested = false;
  mic_gain = f32_one;
  talking_clients = [];
  pending_move = none;
  client_volumes = [];
}

-- The command channel: what is queued, and whether the event loop still holds its receiver.
pub record CommandQueue : Type 0 where
  pub queue : List Command
  pub receiver_alive : Bool

-- The bodies that the code hands to the runtime or to a thread.
pub data Task : Type 0 where
  -- tears the output stream down unless a connection is up again
  deferred_teardown : Task
  -- emits the listing of a return code
  ft_list_finish : ℕ → Task
  -- address, nickname, channel, password
  connect_task : Text → Text → Option Text → Option Text → Task
  -- looks after the buffers and the output stream, for good
  maintenance : Task
  -- takes the stashed connection and runs the event loop of a generation
  session : ℕ → Task
  -- task_id, total
  download_worker : ℕ → ℕ → Task
  -- task_id, src
  upload_worker : ℕ → Text → Task

-- A spawned body with the milliseconds that it sleeps first.
pub record Spawned : Type 0 where
  pub delay : ℕ
  pub task : Task

pub record World : Type 0 where
  pub state : TsConnection
  pub diag_seq : ℕ
  pub panic_log : Text
  -- COMMAND_TX
  pub command_tx : Option CommandQueue
  pub connection_generation : ℕ
  pub event_loop_alive : Bool
  pub swipe_disconnect : Bool
  pub output_restart_requested : Bool
  -- whether CONNECTION_STASH holds a connection
  pub connection_stash : Bool
  pub identity_stash : Option Text
  pub ft_task_seq : ℕ
  pub ft_tasks : Table FtTask
  pub ft_client_ft : ℕ
  pub ft_task_by_rc : Table ℕ
  pub ft_lists : Table PendingFtList
  pub ft_ops : Table PendingFtOp
  pub perm_ops : Table Text
  -- whether AUDIO_STREAM holds a stream
  pub audio_stream : Bool
  pub client_buffers : Table ClientJitterBuffer
  -- the clients that have a mono decoder, and a stereo one
  pub audio_decoders : List ℕ
  pub audio_decoders_stereo : List ℕ
  pub played_samples : ℕ
  pub active_client_ids : List ℕ
  pub sfx_queue : List ℕ
  pub sfx_armed : Bool
  pub sfx_suppress_disconnect : Bool
  pub sfx_deferred_teardown : Bool
  -- the active samples of the kinds 1 to 37
  pub sfx_samples : List (Option (List F32))
  pub spawned : List Spawned
  pub sent : List OutMessage

-- The statics as a process starts with them; `samples` are the built-in sounds.
unfoldable pub initial_world : List (Option (List F32)) → World
unfolding ts_connection_new
initial_world samples = record {
  state = ts_connection_new;
  diag_seq = 0;
  panic_log = [];
  command_tx = none;
  connection_generation = 0;
  event_loop_alive = false;
  swipe_disconnect = false;
  output_restart_requested = false;
  connection_stash = false;
  identity_stash = none;
  ft_task_seq = 1;
  ft_tasks = [];
  ft_client_ft = 0x4000;
  ft_task_by_rc = [];
  ft_lists = [];
  ft_ops = [];
  perm_ops = [];
  audio_stream = false;
  client_buffers = [];
  audio_decoders = [];
  audio_decoders_stereo = [];
  played_samples = 0;
  active_client_ids = [];
  sfx_queue = [];
  sfx_armed = false;
  sfx_suppress_disconnect = false;
  sfx_deferred_teardown = false;
  sfx_samples = samples;
  spawned = [];
  sent = [];
}
