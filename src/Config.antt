-- ===== src/Config.antt =====
-- proxy/config.go: which configuration the proxy starts with.
pub mod Validate
mod Accepted
mod Secure
mod Tests
