-- ===== src/EventLoop.antt =====
-- The event loop of a connection (native/src/api.rs): what it does with a queued command, with
-- an item of the connection's stream, and when the connection ends.
pub mod Env
pub mod Moderation
pub mod Permissions
pub mod Files
pub mod Voice
pub mod Frames
pub mod Ending
pub mod Dispatch
pub mod Closing
pub mod AfterEnd
pub mod StaleFlag
pub mod Targets
pub mod Panicked
mod Examples
