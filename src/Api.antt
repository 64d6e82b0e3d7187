-- ===== src/Api.antt =====
-- The charger client (custom_components/wattpilot/api).
pub mod Errors
pub mod Library
pub mod Models
pub mod Auth
pub mod Connection
pub mod Client
pub mod Definition
