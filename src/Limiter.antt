-- ===== src/Limiter.antt =====
-- rate_limiter.go: decisions, the process-local limiter and its insights, and the limiter with Redis.
pub mod Types
pub mod Local
pub mod Redis
pub mod Window
pub mod Cooldown
pub mod Insights
pub mod Tests
