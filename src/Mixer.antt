-- ===== src/Mixer.antt =====
-- The callback of the output stream (`restart_output_stream` in native/src/api.rs): it mixes the
-- frames of the speakers and the sounds, and copies the mix out. Each call is one step of the
-- model, though other threads may work on the same statics while it runs.
pub mod Frame
pub mod Sounds
pub mod Callback
pub mod Length
pub mod Samples
pub mod Calls
pub mod Duration
pub mod Stats
pub mod Drift
mod Examples
