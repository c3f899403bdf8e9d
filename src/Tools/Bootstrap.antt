-- ===== src/Tools/Bootstrap.antt =====
-- tools/ci/m9_entra_app_bootstrap.py: the app registrations of the lab. Merge has what is written
-- into them, Apps finds and creates them.
pub mod Merge
pub mod Apps
