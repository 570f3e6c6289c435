-- ===== src/Frontend.antt =====
-- frontend/src: the administrative interface.
pub mod Api
pub mod Components
pub mod App
pub mod Usage
pub mod Applications
pub mod Credentials
pub mod Overview
pub mod Health
pub mod Routes
