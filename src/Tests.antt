-- ===== src/Tests.antt =====
-- Concrete inputs, and the theorems at them.
mod Data
mod Auth
mod Keys
mod Services
mod Chat
mod Agent
mod Tools
mod Strict
mod Chain
mod Unary
mod Harness
mod Checks
mod Contracts
mod PublicSafe
mod Bootstrap
