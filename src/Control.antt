-- ===== src/Control.antt =====
-- main.go: what starts the proxy, reloads it, administers it and reports on it.
pub mod Reload
pub mod Admin
pub mod System
pub mod Metrics
pub mod Server
pub mod Tracing
pub mod Cli
pub mod Run
pub mod Addresses
mod Tests
