-- ===== src/Recovery.antt =====
-- apps/daemon/src/recovery: how a run is taken up again after a restart of the daemon.
pub mod Changes
pub mod Manager
pub mod Commit
pub mod Paused
pub mod Completed
pub mod Restarted
