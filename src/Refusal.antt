-- ===== src/Refusal.antt =====
-- proxy/refusal.go: an upstream that refuses on policy grounds, and how the caller is told.
pub mod Find
pub mod Mark
pub mod Hooks
mod Counted
mod Apart
mod Marked
mod Tests
