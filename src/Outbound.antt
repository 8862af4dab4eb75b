-- ===== src/Outbound.antt =====
-- outbound/: the loopback relay that chooses between the upstream proxy and a direct dial.
pub mod Relay
pub mod Connection
mod Verdicts
mod Holds
mod Answers
mod Tests
