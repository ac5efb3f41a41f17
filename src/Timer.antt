-- ===== src/Timer.antt =====
-- packages/workspace/src/rolling-deadline-timer.ts: `RollingDeadlineTimer`.
pub mod Deadline
pub mod Expiry
