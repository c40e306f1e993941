-- ===== src/Sound.antt =====
-- The channel-event sounds and the output stream of native/src/api.rs: the kinds, the queue,
-- and the teardown that waits for a sound to finish. The audio device is a third party's:
-- whether a stream starts on it is an argument.
use nek.Common.{
  ℕ, ◌+◌, ◌-◌, ◌*◌, ◌/◌, Bool, true, false, not, Option, none, some, List, [], ◌∷◌, ◌++◌,
  if◌then◌else◌, length, get_or,
}
use nek.Model.{World, F32, spawn, deferred_teardown}
pub mod Kind

-- Clears the playback state that goes with a stream.
abbrev clear_playback : World → World
clear_playback w = record w {
  sfx_queue = [];
  client_buffers = [];
  audio_decoders = [];
  audio_decoders_stereo = [];
  played_samples = 0;
  active_client_ids = [];
}

-- `started`: a device is there, and a stream was built and plays on it.
unfoldable pub restart_output_stream : Bool → World → World
restart_output_stream started w = record (clear_playback w) { audio_stream = started }

unfoldable pub push_sfx : ℕ → World → World
push_sfx kind w = record w { sfx_queue = w.sfx_queue ++ kind ∷ [] }

unfoldable pub teardown_output_state : World → World
teardown_output_state w = record (clear_playback w) { audio_stream = false }

abbrev pub sample_length : Option (List F32) → ℕ
sample_length none = 0
sample_length (some s) = length s

-- How long the active sample of a kind holds the stream, in milliseconds.
abbrev pub play_ms : ℕ → World → ℕ
play_ms kind w = sample_length (get_or w.sfx_samples (kind - 1) none) * 1000 / 48000 + 400

unfoldable pub schedule_sfx_teardown : ℕ → World → World
schedule_sfx_teardown kind w =
    spawn (play_ms kind w) deferred_teardown
      (record w { sfx_queue = w.sfx_queue ++ kind ∷ []; sfx_deferred_teardown = true })

abbrev pub preserve_ms : ℕ
preserve_ms = 2400

unfoldable pub schedule_teardown_after_kick_sfx : World → World
schedule_teardown_after_kick_sfx w =
    spawn preserve_ms deferred_teardown (record w { sfx_deferred_teardown = true })

-- The body that both of these spawn, once it has slept.
unfoldable pub run_deferred_teardown : World → World
unfolding teardown_output_state
run_deferred_teardown w =
    let v : World = record w { sfx_deferred_teardown = false } in
    if not v.state.connected then teardown_output_state v else v
