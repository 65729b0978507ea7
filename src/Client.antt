-- ===== src/Client.antt =====
-- The page of examples/privy-google-aa/src.
pub mod Browser
pub mod Session
pub mod Rpc
pub mod Retries
pub mod Waiting
pub mod Reverts
pub mod Sending
pub mod WriteLog
pub mod Screen
pub mod Account
