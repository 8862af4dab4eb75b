-- ===== src/Tunnel.antt =====
-- tunnel/: the cloudflared child process that exposes the proxy.
pub mod Process
pub mod World
pub mod Local
pub mod Stop
pub mod Log
pub mod Start
pub mod Ingress
pub mod Fields
pub mod Startup
pub mod Info
mod Kills
mod Settled
mod Downs
mod Launches
mod Outcomes
mod Undone
mod Told
mod Hostnames
mod Causes
mod LogLines
mod Edges
mod Tests
