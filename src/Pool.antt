-- ===== src/Pool.antt =====
-- The backend pool of health.go: its state, the choice of a backend, requests and the circuit
-- breaker, reconfiguration, and health checks.
pub mod Entry
pub mod Select
pub mod Requests
pub mod Admin
pub mod Health
pub mod Invariant
pub mod Steps
pub mod Use
pub mod Startup
pub mod Tests
