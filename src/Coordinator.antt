-- ===== src/Coordinator.antt =====
-- apps/daemon/src/publish: the durable record of a publication and its lease.
pub mod Builds
pub mod Attempts
pub mod Submitted
pub mod Leases
