-- ===== src/Calls.antt =====
-- The calls that Dart makes into the native library (the `ts_` functions of native/src/api.rs).
-- A C string is its decoded text, or nothing for a null pointer. A call returns the new state
-- and its result.
pub mod Queue
pub mod Requests
pub mod Transfers
pub mod Session
pub mod Connect
pub mod Delivery
pub mod Paths
pub mod Sounds
pub mod Samples
pub mod Refusal
pub mod Overrides
mod Examples
