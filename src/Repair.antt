-- ===== src/Repair.antt =====
-- apps/daemon/src/repair: the session in which a worker's repair goes on.
pub mod Continuation
pub mod Reading
pub mod Source
