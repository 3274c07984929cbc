-- ===== src/Provisioner.antt =====
-- internal/provisioner: the reconciliation of the configuration with live resources.
pub mod Effects
pub mod Admin
pub mod Labels
pub mod Update
pub mod Topics
pub mod Subscriptions
pub mod Buckets
pub mod Keys
pub mod Sections
pub mod Frame
pub mod DryRun
pub mod Service
pub mod Validated
pub mod Sendable
pub mod Readback
pub mod Served
pub mod Gaps
pub mod Tests
