-- ===== src/Agent.antt =====
-- apps/agent-execution/python-fastapi-agent-framework/app: the agent between the BFF and the MCP tools.
pub mod Config
pub mod Auth
pub mod Main
