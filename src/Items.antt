-- ===== src/Items.antt =====
-- What the event loop does with the items of the connection's stream (`handle_event_item` and
-- the arms of `handle_control_item` in native/src/api.rs).
pub mod Listing
pub mod Transfer
pub mod Answer
pub mod Message
pub mod Interruption
pub mod Ledger
pub mod Done
pub mod Collect
pub mod Progress
mod Examples
