-- ===== src/Lib.antt =====
-- SmartFlow runs approved tasks by external agents in a project, has the result reviewed, and
-- publishes it to the project's directory. This library models the core of its daemon: the durable
-- project state, the one way to change it, the candidate of a run and its publication, cancellation and
-- recovery, the review gate, the deadline timer, and the queue of a worker's events.
--
-- The parts, with the file that models each:
--   Errors.antt            packages/state-store/src/errors.ts; a function that may throw returns a Result
--   Protocol (4 files)     packages/protocol/src/schema/run-state.ts and common.ts: shapes and refinements
--   State/Records.antt, State/Refine.antt
--                          packages/state-store/src/schema.ts: RunRecord, ProjectState and their refinements
--   Store/Database.antt    packages/state-store/src/state-store.ts: rows, transactions, readState,
--                          initialize, removeStaleMutationLease
--   Store/Leases.antt      acquireMutationLease, renewMutationLease, releaseMutationLease, writeState
--   Store/Checkpoints.antt writeStateWithLease with its checkpoint hooks
--   Store/Handle.antt      SqliteMutationLease
--   Mutation/Executor.antt, Mutation/Mutate.antt
--                          apps/daemon/src/runtime/project-mutation-executor.ts: mutate
--   Mutation/Bound.antt    the requests that the managers of a run make of it
--   Candidate/Snapshot.antt, Candidate/Operations.antt
--                          packages/workspace/src/git-snapshot.ts (the verification) and
--                          candidate-builder.ts
--   Candidate/PublishSource.antt
--                          apps/daemon/src/publish/git-publish-source.ts: gitPublishOperations
--   Coordinator/Builds.antt, Coordinator/Attempts.antt
--                          apps/daemon/src/publish/publish-coordinator.ts: StateStorePublishAttemptStore
--   Cancel/Manager.antt    apps/daemon/src/cancel/cancel-manager.ts
--   Recovery/Changes.antt, Recovery/Manager.antt
--                          apps/daemon/src/recovery/recovery-manager.ts: RecoveryManager
--   Rpc/Queue.antt         packages/provider-pi/src/rpc-client.ts: AsyncEventQueue
--   Publish/Operations.antt, Publish/Target.antt
--                          packages/publish/src/preflight.ts and internal-utils.ts
--   Publish/Results.antt, Publish/Staging.antt, Publish/Adapter.antt
--                          packages/publish/src/workspace-apply-adapter.ts: apply
--   Publish/Reconcile.antt, Publish/Service.antt, Publish/Publication.antt
--                          packages/publish/src/publish-service.ts
--   Review/Decision.antt   packages/review/src/review-gate.ts and review-decision.ts
--   Review/Repair.antt     packages/review/src/repair-loop.ts: the two assessments
--   Repair/Continuation.antt
--                          apps/daemon/src/repair/repair-continuation.ts
--   Timer/Deadline.antt    packages/workspace/src/rolling-deadline-timer.ts
-- The other files of these folders hold theorems, Shared the helpers, and Examples concrete runs.
--
-- How they interact: the executor acquires the mutation lease of the store, reads the state, checks
-- the guards of a request, and writes the next version through the lease. Its session lists what the
-- other processes do while the builder and the preparation of the effect run, as a schedule of store
-- operations. The publication service calls an attempt store and an adapter, which are interfaces
-- here; `apply` of the filesystem adapter is modelled beside it. The candidate gives the operations of
-- a publication. The cancellation, the recovery and the attempt store of the publish coordinator read
-- the state, ask their runtime, and make one mutation each under a lease that is held; `meanwhile` is
-- the schedule of what the other processes do between the reading and the mutation.
--
-- How the model corresponds to the code: a stateful operation takes the state and returns its answer
-- with the state that it leaves. A transaction is one step; what runs between two transactions is an
-- explicit schedule. The clock, the host, the pid and the tests on processes are the record Env. Two
-- loops depend on other processes: the rounds of an acquisition are a list of readings, the end of
-- which is `none`, and every list that reaches the deadline is enough; the other loops are structural.
-- SHA-256, the canonical hash, the collation of paths and SQLite's rollback are parameters or are
-- written as the documentation of those libraries has them.
--
-- A write without checkpoint hooks, as the executor makes it, whose row is read again before another
-- process acts, is the step of the schedules; Store/Checkpoints.antt has the hooks and what comes
-- between. How the system resolves the links of a path is a parameter of the publication.
--
-- Not modelled: the textual formats of the schemas, the trimming of identifiers, message texts, file
-- modes of the database, the renewal timer of a lease, the queue of one process, temporary file names,
-- links that others put on the way to a path after it was walked, as far as the observation of results
-- goes, the artifact files and their verification (`verifyRunArtifacts` is an argument of the
-- recovery), the capture of snapshots by git, the clean-up of temporary files (an argument too), and
-- these parts: the repair coordinator, the publish coordinator above its attempt store, and the
-- runners, whose changes of state go through the executor; the task manifests and the project lock;
-- and the transport, the requests of the worker's client, the provider adapters, the command line and
-- the MCP server, which are input and output around external programs.
pub mod Shared
pub mod Protocol
pub mod State
pub mod Errors
pub mod Store
pub mod Mutation
mod Examples
pub mod Publish
pub mod Review
pub mod Timer
pub mod Candidate
pub mod Cancel
pub mod Recovery
pub mod Coordinator
pub mod Rpc
pub mod Repair
