-- ===== src/App.antt =====
-- The session backend of examples/privy-google-aa/server.
pub mod Codec
pub mod Policy
pub mod Cookie
pub mod Guards
pub mod Proxy
pub mod Api
pub mod Log
pub mod Privy
pub mod Configured
pub mod Described
pub mod Sessions
pub mod History
pub mod Bodies
pub mod Serve
