-- ===== src/Gateway.antt =====
-- src/cesar_core/ai, search, fetch, policy and omniroute: the gateway of an authorised request.
pub mod Terms
pub mod Table
pub mod Json
pub mod Omniroute
pub mod Ai
pub mod Services
pub mod Fetch
pub mod Search
