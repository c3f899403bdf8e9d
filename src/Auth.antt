-- ===== src/Auth.antt =====
-- apps/shared/python/identity_lab_auth: one module for each file.
pub mod Claims
pub mod TokenType
pub mod Guards
pub mod Settings
pub mod Jwks
pub mod Obo
pub mod AgentObo
