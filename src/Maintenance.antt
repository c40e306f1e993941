-- ===== src/Maintenance.antt =====
-- The maintenance task (`spawn_maintenance_task` in native/src/api.rs): what its ticks do. The
-- tick that prints statistics stands with them, in Mixer/Stats.
use nek.Common.{
  ℕ, ◌-◌, Bool, true, false, not, ◌&&◌, Option, none, some, List, [], ◌∷◌, map, filter,
  if◌then◌else◌, ltb, ◌==◌,
}
use nek.Common.Table.{Table, lookup, remove}
use nek.Model.{World, ClientJitterBuffer}
use nek.Sound.{restart_output_stream}
pub mod Cleanup
mod Examples

-- Whether a last packet lies more than ten seconds back; without one a client is left alone.
abbrev pub is_stale : ℕ → Option ℕ → Bool
is_stale now none = false
is_stale now (some last) = ltb 10000 (now - last)

-- Phase 1: the clients that seem to be gone.
unfoldable pub candidates : ℕ → Table ClientJitterBuffer → List ℕ
candidates now [] = []
candidates now ((id, b) ∷ buffers) =
    let rest = candidates now buffers in if is_stale now b.last_packet then id ∷ rest else rest

abbrev remove_id : ℕ → List ℕ → List ℕ
remove_id id ids = filter (λ j. not (j == id)) ids

-- Phase 2 for one client: it is looked at again before it goes, with its decoders.
unfoldable pub remove_stale : ℕ → ℕ → World → World
remove_stale now id w = elim (lookup id w.client_buffers) [
  | none ↦ w
  | some b ↦
      if is_stale now b.last_packet
      then record w {
        client_buffers = remove id w.client_buffers;
        audio_decoders = remove_id id w.audio_decoders;
        audio_decoders_stereo = remove_id id w.audio_decoders_stereo;
      }
      else w
]

unfoldable pub remove_candidates : ℕ → List ℕ → World → World
unfolding remove_stale
remove_candidates now [] w = w
remove_candidates now (id ∷ ids) w = remove_candidates now ids (remove_stale now id w)

-- `between` is what other threads do between the two phases.
unfoldable pub cleanup_tick : ℕ → (World → World) → World → World
unfolding candidates remove_candidates
cleanup_tick now between w = remove_candidates now (candidates now w.client_buffers) (between w)

-- The clients that the audio callback walks are those that have a buffer now; a stream that was
-- asked to be built again is, if a connection is up. `started` is as of `restart_output_stream`.
unfoldable pub snapshot_tick : Bool → World → World
unfolding restart_output_stream
snapshot_tick started w =
    let v : World = record w { active_client_ids = map (λ e. e.0) w.client_buffers } in
    if v.output_restart_requested && v.state.connected
    then record (restart_output_stream started v) { output_restart_requested = false }
    else v

-- The error callback of the stream: the device went away.
abbrev pub on_stream_error : World → World
on_stream_error w = record w { output_restart_requested = true }
