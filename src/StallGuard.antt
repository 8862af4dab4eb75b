-- ===== src/StallGuard.antt =====
-- proxy/stallguard.go: the wrapper that severs streams which stop moving and keeps the books on how
-- they ended.
pub mod Ledger
pub mod Pump
pub mod Install
pub mod Lines
pub mod Verdict
pub mod Coverage
mod Tests
