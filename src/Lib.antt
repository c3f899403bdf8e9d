-- ===== src/Lib.antt =====
-- The identity lab: three Python services that pass a caller's identity along a chain, and the library
-- of token checks that they share. A browser calls the BFF, the BFF calls the agent, the agent calls
-- the tools of the MCP service; each of them decides on a token's claims by itself, and in strict mode
-- each hop exchanges the caller's token for one of its own.
--
-- The shared library is apps/shared/python/identity_lab_auth:
-- - Auth/Claims: claims.py (sanitize_claims and the allowlist).
-- - Auth/TokenType: token_type.py. Auth/Guards: guards.py (validate_claims, the require_* tests).
-- - Auth/Settings: auth_settings.py (modes, bearer tokens, fixtures, the strict configuration).
-- - Auth/Jwks: jwks.py, as Algorithm (_validate_algorithm), Cache (JwksCache), Strict (validate_strict),
--   and Shared for the caches of auth_settings.py (load_strict_claims_from_authorization).
-- - Auth/Obo: obo.py. Auth/AgentObo: agent_obo.py (the sidecar interface and its offline client).
-- - Diagnostics: apps/shared/python/identity_lab_diagnostics/correlation.py and the services'
--   diagnostics.py. Telemetry: telemetry.py (the exporter that is set up, the span's attributes).
-- The services:
-- - Service: what the three of them repeat, and Env, the surroundings of a request.
-- - Bff: apps/bff/python-fastapi/app, Agent:
--   apps/agent-execution/python-fastapi-agent-framework/app, Mcp: apps/mcp-protected-api/python-fastapi/app;
--   each has Config (config.py), Auth (auth.py) and Main (main.py).
-- - Chain: the BFF and the agent together, where the agent answers what the BFF posts.
-- Tools are the command-line checks of tools/ci, with Shell for what they share:
-- - Environment: m9_github_environment_check.py (the names in the protected environments).
-- - Harness: m8_browser_smoke_harness.py, as Inputs (validate_live_inputs), Live (the transports),
--   Artifact (redaction and evaluation), Wiring (the repository's files) and Main.
-- - AgentBrowser: m9_agent_browser_command.py, the command that the harness runs in one transport.
-- - Bootstrap: m9_entra_app_bootstrap.py, as Merge (the merges with what an app has) and Apps (finding
--   and creating apps, over the state of the directory).
-- - Trace: m8_smoke_trace_contract.py and tools/telemetry/validate_m8_kql_contract.py.
-- - Preflight: m9_live_preflight.py.
-- - PublicSafe: public_safe_validation.py, with Scans (line by line), Policies (of one workflow),
--   Gate (of all workflows) and Contract (the telemetry contract).
-- Prelude, Result, Value, Host and Http hold what all of it stands on: texts with Python's methods,
-- exceptions as values, JSON values and dicts, the conversions of the Python runtime, and replies.
--
-- How the code is read. An exception is a result `raise e`. A dict is a list of entries in insertion
-- order. Times are natural numbers of microseconds, and whole seconds of a token are integers. Lower
-- case is exact for the letters whose lower case is ASCII, which is what comparisons with ASCII texts
-- see. The key cache and the shared caches are states that an operation passes on, with the list of
-- requested URLs. Nothing runs on fuel: all loops are structural.
--
-- Parameters: PyJWT (Jwt), the HTTP client and the clock (Network, HttpReply), the environment, fixture
-- files and generated ids (Env), and Python's float, int, repr and json.dumps (Host). In the services
-- the strict validation is a field of Env, which Bff/Auth/Strict fills with Auth/Jwks/Shared.
-- The tools take the commands that they run, the browser, the files, json.loads and SHA-256 as
-- parameters (Runtime, Shell, Files), and what a regular expression matches (Regex).
-- Not modelled: the spans that the services open, FastAPI's parsing of requests, argument parsing and
-- what the tools print, the frontend and Terraform scans of public_safe_validation.py,
-- the patch sequence of the bootstrap,
-- the services in other languages, infrastructure.
mod Prelude
pub mod Result
pub mod Value
pub mod Host
pub mod Http
pub mod Auth
pub mod Diagnostics
pub mod Telemetry
pub mod Service
pub mod Bff
pub mod Agent
pub mod Mcp
pub mod Chain
pub mod Tools
mod Tests
