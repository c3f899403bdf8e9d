-- ===== src/Tools.antt =====
-- The command-line checks under tools/: the files, environments and commands that they read are
-- parameters, and what they print and return is the result.
pub mod Shell
pub mod Environment
pub mod Harness
pub mod AgentBrowser
pub mod Bootstrap
pub mod Trace
pub mod Preflight
pub mod PublicSafe
