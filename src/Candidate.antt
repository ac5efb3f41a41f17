-- ===== src/Candidate.antt =====
-- packages/workspace/src: snapshots of a worktree, the candidate made of two of them, and the
-- operations of its publication (apps/daemon/src/publish/git-publish-source.ts).
pub mod Snapshot
pub mod Operations
pub mod CarryOut
pub mod RoundTrip
pub mod PublishSource
pub mod Published
