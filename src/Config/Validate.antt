-- ===== src/Config/Validate.antt =====
-- Validation in internal/config/config.go. A check returns `ok` or its first error; the fields are
-- tested in the order of the source.
pub mod Fields
pub mod Subscriptions
pub mod Resources
pub mod Ranges
pub mod Settings
pub mod Seen
pub mod Sound
pub mod Accepted
