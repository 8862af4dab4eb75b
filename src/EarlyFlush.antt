-- ===== src/EarlyFlush.antt =====
-- proxy/earlyflush.go: the early event-stream preamble of a slow streaming request.
pub mod Frame
pub mod Writer
pub mod Handler
pub mod Timer
pub mod Finish
pub mod Steps
pub mod Invariant
pub mod Statuses
pub mod Endings
pub mod Heard
mod Speech
pub mod Admission
pub mod Middleware
pub mod Late
pub mod Untouched
pub mod Shadow
mod Tests
