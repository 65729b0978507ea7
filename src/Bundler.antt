-- ===== src/Bundler.antt =====
-- bundler/src/index.js and bundler/src/auth.js: the ERC-4337 bundler, one module for each part.
pub mod Types
pub mod Errors
pub mod Normalize
pub mod Simulation
pub mod Normal
pub mod Rejects
pub mod Gas
pub mod State
pub mod World
pub mod Invariant
pub mod Lifecycle
pub mod Auth
pub mod Query
pub mod Rpc
pub mod Server
pub mod Access
pub mod Answers
pub mod Queue
pub mod Sending
pub mod Receipts
pub mod Startup
pub mod Args
pub mod Settings
