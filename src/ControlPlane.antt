-- ===== src/ControlPlane.antt =====
-- src/cesar_core/admin: the persistent state of the gateway and its administrative API.
pub mod Registry
pub mod Token
pub mod Credentials
pub mod Sessions
pub mod Rollups
pub mod Login
pub mod Routes
pub mod Listing
pub mod Admin
