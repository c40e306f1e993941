-- ===== src/Calls/Session.antt =====
-- The calls on the session: identity, connect, disconnect, polling, voice settings. f32
-- arithmetic is a parameter; the constants are f32 bit patterns.
use nek.Common.{
  ℕ, ◌-◌, ◌%◌, ◌^◌, Bool, true, false, ◌||◌, Option, none, some, List, [], ◌++◌, map, find, any,
  filter, is_empty, if◌then◌else◌, ltb, ◌==◌,
}
use nek.Common.Text.{Text, lit}
use nek.Common.Table.{Table, update}
use nek.Common.TextTable
use nek.Model.{
  World, TsConnection, TsEvent, TsChannel, TsClient, TsServerGroup, TsChannelGroup, TsPerm, F32,
  F32Ops, error, connect_task, disconnect, out_disconnect, push_diag, transmit, spawn,
  flush_panic_log,
}
use nek.Sound.{teardown_output_state}
use nek.Calls.Queue.{send_cmd}
use nek.Calls.Requests.{flag}

abbrev pub set_state : TsConnection → World → World
set_state s w = record w { state = s }

unfoldable pub ts_set_identity : Option Text → World → World
ts_set_identity none w = w
ts_set_identity (some s) w = record w { identity_stash = if is_empty s then none else some s }

unfoldable pub ts_get_identity : World → Option Text
ts_get_identity w = w.identity_stash

-- What `ts_connect` answers at once.
pub data ConnectReply : Type 0 where
  refused : TsEvent → ConnectReply
  connecting_reply : ConnectReply

unfoldable pub ts_connect : Text → Text → Option Text → Option Text → World → World × ConnectReply
ts_connect address nickname channel password w =
    if w.state.connecting || w.state.connected
    then (w, refused (error (lit "Already connecting")))
    else (
      spawn 0 (connect_task address nickname channel password) (
          set_state (record w.state { connecting = true; nickname = nickname; pending_events = [] })
            w),
      connecting_reply,
    )

-- Queues the disconnect command if there is a queue; whether that works is not looked at.
abbrev try_disconnect : World → World
try_disconnect w = (send_cmd disconnect w).0

-- The connection is dropped by hand, since no event loop is there to do it.
abbrev disconnect_stashed : World → World
disconnect_stashed w =
    let v : World = transmit out_disconnect (record w { connection_stash = false }) in
    set_state (record v.state { connected = false; disconnect_requested = false }) v

unfoldable pub keep_alive_ts_disconnect : World → World
unfolding send_cmd
keep_alive_ts_disconnect w =
    let v : World = try_disconnect (record w {
      state = record w.state { disconnect_requested = true };
      swipe_disconnect = true;
    }) in
    if v.connection_stash then disconnect_stashed v else v

-- `said` is the text of the diagnostic, which names whether the loop is alive.
unfoldable pub ts_disconnect : World → World
unfolding send_cmd push_diag
ts_disconnect w =
    let said =
      lit "ts_disconnect: event_loop_alive="
      ++ (if w.event_loop_alive then lit "true" else lit "false") in
    let v : World = push_diag said w in
    if v.event_loop_alive
    then try_disconnect (set_state (record v.state { disconnect_requested = true }) v)
    else if v.connection_stash
    then record (disconnect_stashed v) {
      audio_stream = false;
      client_buffers = [];
      audio_decoders = [];
      audio_decoders_stereo = [];
      played_samples = 0;
      active_client_ids = [];
    }
    else v

unfoldable pub ts_restart_audio_output : World → World
ts_restart_audio_output w =
    if w.state.connected then record w { output_restart_requested = true } else w

unfoldable pub ts_poll_events : World → World × List TsEvent
unfolding flush_panic_log
ts_poll_events w =
    let v : World = flush_panic_log w in
    (set_state (record v.state { pending_events = [] }) v, v.state.pending_events)

unfoldable pub ts_get_channels : World → List TsChannel
ts_get_channels w = if w.state.connected then w.state.channels else []

unfoldable pub ts_get_server_groups : World → List TsServerGroup
ts_get_server_groups w = if w.state.connected then w.state.server_groups else []

unfoldable pub ts_get_channel_groups : World → List TsChannelGroup
ts_get_channel_groups w = if w.state.connected then w.state.channel_groups else []

unfoldable pub ts_get_own_perms : World → List TsPerm
ts_get_own_perms w = if w.state.connected then w.state.own_perms else []

-- The clients that spoke within the last half second.
abbrev talking : ℕ → Table ℕ → List ℕ
talking now t = map (λ e. e.0) (filter (λ e. ltb (now - e.1) 500) t)

abbrev volume_of : Option Text → List (Text × F32) → F32 → F32
volume_of none volumes v = v
volume_of (some uid) volumes v = elim (TextTable.lookup uid volumes) [ none ↦ v | some db ↦ db ]

abbrev refresh_client : ℕ → TsConnection → TsClient → TsClient
refresh_client now s c = record c {
  is_talking = any (λ id. id == c.id % 2 ^ 16) (talking now s.talking_clients);
  volume = volume_of c.uid s.client_volumes c.volume;
}

unfoldable pub ts_get_clients : ℕ → World → World × List TsClient
unfolding TextTable.lookup
ts_get_clients now w =
    if w.state.connected
    then (let clients = map (refresh_client now w.state) w.state.clients in
        (set_state (record w.state { clients = clients }) w, clients))
    else (w, [])

unfoldable pub ts_is_connected : World → ℕ
ts_is_connected w = if w.state.connected then 1 else 0

unfoldable pub ts_set_vad_threshold : F32 → World → World
ts_set_vad_threshold threshold w = set_state (record w.state { vad_threshold = threshold }) w

unfoldable pub ts_set_vad_enabled : ℕ → World → World × ℕ
ts_set_vad_enabled enabled w = (set_state (record w.state { vad_enabled = flag enabled }) w, 1)

unfoldable pub ts_is_voice_active : World → World × ℕ
ts_is_voice_active w =
    (set_state (record w.state { voice_active = false }) w, if w.state.voice_active then 1 else 0)

unfoldable pub ts_set_mic_gain : F32Ops → F32 → World → World
ts_set_mic_gain ops gain w =
    set_state (record w.state { mic_gain = ops.clamp gain 0 0x4040_0000 }) w

abbrev uid_of : Option TsClient → Option Text
uid_of none = none
uid_of (some c) = c.uid

abbrev persist : Option Text → F32 → List (Text × F32) → List (Text × F32)
persist none db volumes = volumes
persist (some uid) db volumes = TextTable.insert uid db volumes

unfoldable pub ts_set_client_volume : F32Ops → ℕ → F32 → World → World
unfolding TextTable.insert
ts_set_client_volume ops client_id volume_db w =
    let vol_db = ops.clamp volume_db 0xc1a0_0000 0x41a0_0000 in
    let gain = ops.powf 0x4120_0000 (ops.div vol_db 0x41a0_0000) in
    let uid = uid_of (find (λ (c : TsClient). c.id % 2 ^ 16 == client_id) w.state.clients) in
    record w {
      state = record w.state { client_volumes = persist uid vol_db w.state.client_volumes };
      client_buffers = update client_id (λ b. record b { volume = gain }) w.client_buffers;
    }

-- `encoder_made`: the codec library made an encoder.
unfoldable pub ts_start_audio : Bool → World → World × ℕ
ts_start_audio encoder_made w =
    if encoder_made
    then (set_state (record w.state { audio_encoder = true; pcm_in = []; audio_seq = 0 }) w, 1)
    else (w, 0)

unfoldable pub ts_stop_audio : World → World
unfolding teardown_output_state
ts_stop_audio w =
    let v : World = set_state (record w.state { audio_encoder = false }) w in
    if w.state.disconnect_requested || v.sfx_deferred_teardown then v else teardown_output_state v
