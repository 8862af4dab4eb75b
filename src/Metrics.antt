-- ===== src/Metrics.antt =====
-- metrics/: what the proxy knows of its own traffic.
pub mod Sample
pub mod Health
pub mod History
pub mod InFlight
pub mod Rows
pub mod Usage
pub mod Collector
mod Board
mod Quota
mod Window
pub mod Meter
mod Tests
mod Runs
