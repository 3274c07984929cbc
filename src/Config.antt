-- ===== src/Config.antt =====
-- internal/config/config.go: the configuration, its strategies, durations and validation.
pub mod Schema
pub mod Strategy
pub mod GoTime
pub mod Duration
pub mod Names
pub mod Expand
pub mod Problem
pub mod Validate
pub mod Load
mod Tests
