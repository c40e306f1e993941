-- ===== src/Book.antt =====
-- What the event loop does with a batch of the connection library's events about its book (the
-- arm `StreamItem::BookEvents` of `handle_control_item`, `refresh_from_book` and
-- `maybe_trigger_sfx` in native/src/api.rs).
pub mod Data
pub mod Trigger
pub mod Refresh
pub mod Events
pub mod Quiet
pub mod Movement
pub mod Plain
pub mod Induction
pub mod Once
pub mod Slots
pub mod Kick
pub mod Roster
mod Examples
