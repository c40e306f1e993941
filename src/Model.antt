-- ===== src/Model.antt =====
-- The data of the native library (native/src/lib.rs): what Dart asks for, what it is told, and
-- the global state that the calls and the tasks share.
mod Roster
mod Floats
mod Transfer
mod Event
mod Commands
mod Wire
mod Jitter
mod State
mod Access
pub use Roster.*
pub use Floats.*
pub use Transfer.*
pub use Event.*
pub use Commands.*
pub use Wire.*
unfoldable pub use Jitter.*
unfoldable pub use State.*
unfoldable pub use Access.*
