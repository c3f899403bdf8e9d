-- ===== src/Bff.antt =====
-- apps/bff/python-fastapi/app: the service that browsers call.
pub mod Config
pub mod Auth
pub mod Main
