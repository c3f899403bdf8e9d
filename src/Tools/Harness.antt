-- ===== src/Tools/Harness.antt =====
-- tools/ci/m8_browser_smoke_harness.py: the live smoke check through a browser, in three transports,
-- and the static check of the wiring in the repository's files.
pub mod Artifact
pub mod Inputs
pub mod Live
pub mod Wiring
pub mod Main
