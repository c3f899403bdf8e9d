-- ===== src/Mcp.antt =====
-- apps/mcp-protected-api/python-fastapi/app: the protected tools at the end of the chain.
pub mod Config
pub mod Auth
pub mod Main
