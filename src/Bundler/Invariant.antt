-- ===== src/Bundler/Invariant.antt =====
-- What holds of the maps and the objects of `LnetBundler` between two waits, whatever runs.
pub mod Settle
pub mod Frame
pub mod Step
