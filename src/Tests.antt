-- ===== src/Tests.antt =====
-- Concrete inputs for the theorems: toy parameters, and one run of each.
pub mod Toys
pub mod Normalizing
pub mod Sends
pub mod Bundles
pub mod Requests
pub mod Policies
pub mod Proxies
pub mod Logs
pub mod Startups
pub mod Identities
pub mod Numbers
pub mod Services
pub mod Histories
pub mod Posting
pub mod Pages
