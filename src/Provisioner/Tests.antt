-- ===== src/Provisioner/Tests.antt =====
-- The theorems on internal/provisioner at concrete data.
pub mod Worlds
mod Masks
mod Gaps
mod Runs
pub mod Messages
mod Served
