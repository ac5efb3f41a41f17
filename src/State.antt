-- ===== src/State.antt =====
-- packages/state-store/src/schema.ts: the persisted state, and what its schema demands.
pub mod Records
pub mod Refine
pub mod Update
pub mod Unique
pub mod Attempts
