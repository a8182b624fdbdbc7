-- ===== src/Engine.antt =====
-- The engine, which runs the jobs of the daemon: engine/.
pub mod Env
