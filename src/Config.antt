-- ===== src/Config.antt =====
-- config.go: the configuration, its defaults, the environment's overrides and its validation.
pub mod Types
pub mod Defaults
pub mod Environment
pub mod Validate
pub mod Load
pub mod Tests
