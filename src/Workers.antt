-- ===== src/Workers.antt =====
-- The threads that move the bytes of a transfer (`spawn_download_worker` and
-- `spawn_upload_worker` in native/src/api.rs), with what the rest of the program does to the
-- transfers in between.
pub mod Download
pub mod Upload
pub mod Endings
pub mod Termination
pub mod Outcome
mod Examples
