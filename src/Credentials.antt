-- ===== src/Credentials.antt =====
-- credentials/: the files with which the proxy signs in upstream.
pub mod Store
mod Spared
mod Times
mod Tests
