-- ===== src/Envelope.antt =====
-- proxy/errorenvelope.go: what a caller is told when a request fails.
pub mod Message
pub mod Body
pub mod Writer
pub mod Safe
pub mod Delivery
pub mod Kept
pub mod Itoa
mod Tests
