-- ===== src/Stream.antt =====
-- The event loop of native/src/api.rs as a whole: an item of the connection's stream, what one
-- iteration polls, and the iterations one after the other.
pub mod Item
pub mod Poll
pub mod Loop
pub mod Order
pub mod Returns
pub mod Closing
pub mod Tells
pub mod Due
pub mod Endings
pub mod Commands
pub mod Ends
pub mod TopHalf
pub mod Transfers
mod Examples
