-- ===== src/Bundler/Lifecycle.antt =====
-- The life of a UserOperation in the bundler: pending in `mempool`, then included or failed.
pub mod Tracking
pub mod Settled
pub mod Resubmit
pub mod Orphan
