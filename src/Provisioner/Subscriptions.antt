-- ===== src/Provisioner/Subscriptions.antt =====
-- internal/provisioner/subscriptions.go: a subscription is built (`Build`), compared (`Diff`) and
-- created or updated.
pub mod Build
pub mod Diff
pub mod Ensure
pub mod Drifts
pub mod Laws
pub mod Kept
pub mod Convergence
