-- ===== src/Publish.antt =====
-- packages/publish/src: the publication of a candidate to the project's own directory.
pub mod Operations
pub mod Target
pub mod Results
pub mod Staging
pub mod Adapter
pub mod Outcome
pub mod Applied
pub mod Preflight
pub mod Reconcile
pub mod Service
pub mod Publication
pub mod Confirmed
pub mod Reported
