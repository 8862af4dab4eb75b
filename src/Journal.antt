-- ===== src/Journal.antt =====
-- journal/: the record of what happened, its writer and its reader.
pub mod Event
pub mod Query
pub mod Reader
pub mod Window
pub mod Ring
pub mod Search
pub mod Paths
pub mod Rejects
pub mod Keys
pub mod Accounts
pub mod Totals
pub mod Summary
pub mod Sums
pub mod Sorted
pub mod Writer
pub mod Filed
pub mod Kept
mod Traced
pub mod Together
mod Tests
mod WriterTests
