-- ===== src/Daemon.antt =====
-- daemon: the run state of a container and the monitor that restarts its process.
pub mod State
pub mod Monitor
