-- ===== src/Cancel.antt =====
-- apps/daemon/src/cancel: how a requested cancellation is completed or reported as blocked.
pub mod Manager
pub mod Attempts
pub mod Accepted
pub mod Blocked
