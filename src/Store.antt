-- ===== src/Store.antt =====
-- packages/state-store/src/state-store.ts: the durable state store of a project. The database and
-- its rows, the operations on the lease and the writes, the lease object that a caller holds, and
-- their theorems.
pub mod Database
pub mod Leases
pub mod Handle
pub mod Rows
pub mod Writes
pub mod Checkpoints
pub mod Exclusion
pub mod InTurn
pub mod Schedule
pub mod Versions
pub mod Acquisition
