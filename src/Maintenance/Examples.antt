-- ===== src/Maintenance/Examples.antt =====
-- The theorem about the cleanup at an input, and a restart of the stream.
use nek.Common.{ℕ, ◌≡◌, refl, true, false, some, [], ◌∷◌}
use nek.Common.Table.{lookup}
use nek.Model.{World, ClientJitterBuffer, client_jitter_buffer_new, initial_world}
use nek.Maintenance.{cleanup_tick, snapshot_tick}
use nek.Maintenance.Cleanup.{lookup-cleanup_tick}

abbrev last_heard : ℕ → ClientJitterBuffer
last_heard at = record client_jitter_buffer_new { last_packet = some at }

-- Client 7 fell silent long ago, and talks again while the cleanup runs.
abbrev silent : World
silent = record (initial_world []) { client_buffers = (7, last_heard 100) ∷ [] }

abbrev talks_again : World → World
talks_again w = record w { client_buffers = (7, last_heard 20000) ∷ [] }

lookup-cleanup_tick_example :
    lookup 7 (cleanup_tick 20000 talks_again silent).client_buffers
    ≡ lookup 7 (talks_again silent).client_buffers
unfolding lookup client_jitter_buffer_new
lookup-cleanup_tick_example = lookup-cleanup_tick 20000 7 talks_again silent refl

abbrev unplugged : World
unplugged =
    let w = initial_world [] in
    record w {
      state = record w.state { connected = true };
      output_restart_requested = true;
      audio_stream = true;
    }

-- Where no device is there when the stream is built again, no later tick tries it once more.
not_tried_again : (snapshot_tick true (snapshot_tick false unplugged)).audio_stream ≡ false
unfolding snapshot_tick nek.Sound.restart_output_stream initial_world
not_tried_again = refl
