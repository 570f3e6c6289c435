-- ===== src/Security.antt =====
-- src/cesar_core/security: the border between an application and the gateway.
pub mod Authentication
pub mod Authorization
pub mod Quota
