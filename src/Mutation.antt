-- ===== src/Mutation.antt =====
-- apps/daemon/src/runtime/project-mutation-executor.ts: the one way in which the daemon changes the
-- project state.
pub mod Executor
pub mod Mutate
pub mod Answers
pub mod Guarantees
pub mod Fencing
pub mod InTurn
pub mod Bound
