-- ===== src/Auth/Jwks.antt =====
-- jwks.py: algorithm enforcement, the key cache and the strict validation. PyJWT and the HTTP client
-- are parameters.
pub mod Algorithm
pub mod Cache
pub mod Strict
pub mod Shared
