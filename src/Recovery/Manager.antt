-- ===== src/Recovery/Manager.antt =====
-- apps/daemon/src/recovery/recovery-manager.ts: `RecoveryManager.recover`. The answer of
-- `verifyRunArtifacts`, the runtime's answers, the times that are read and the clean-up of temporary
-- files are arguments, and so are `decimal` for `String(n)` and `digest` for SHA-256. The mutations
-- are made under a lease that is held.
use Prim.Native.String.{◌++◌}
use ai_smart_flow.Shared.{
  ℕ, Bool, true, false, String, List, Option, none, some, ◌&&◌, ◌||◌, text_eq, if◌then◌else◌, get,
  last,
}
use ai_smart_flow.Errors.{Result, ok, err, ◌>>=◌, thrown}
use ai_smart_flow.Protocol.Json.{Json, Fields}
use ai_smart_flow.Protocol.Phase.{RunPhase, is_terminal}
use ai_smart_flow.Protocol.Records.{PublishResult}
use ai_smart_flow.Protocol.Refine.{publish_committed, publish_conflict}
use ai_smart_flow.State.Records.{RunRecord, ProjectState, PublishAttempt}
use ai_smart_flow.Store.Database.{Database, Env, read_state}
use ai_smart_flow.Store.Handle.{Handle}
use ai_smart_flow.Store.Schedule.{Operation, run}
use ai_smart_flow.Mutation.Executor.{Outcome, Session}
use ai_smart_flow.Mutation.Mutate.{mutate_body}
use ai_smart_flow.Cancel.Manager.{run_or, object_of}
use ai_smart_flow.Recovery.Changes.{
  RecoveryAction, ObservedStatus, PublishRecoveryObservation, RecoveryRuntime, RecoveryResult,
  recovery_result, Change, recovery_build, code_of, paused_change, restarted_change,
  completed_change, conflict_change, result_bound, awaits_review, timed_out, is_canceling,
  recovery_request,
}

module _ (canonical_hash : Json → String) (decimal : ℕ → String) (digest : String → String)
    (observation_json : PublishRecoveryObservation → Json) (session : Session) (handle : Handle)
    (meanwhile : List (Env × Operation)) (runtime : RecoveryRuntime)
    (cleanup : RunRecord → Result (Unit {0})) (ended_at now : String) where
  -- `commit`
  unfoldable pub commit :
      ProjectState
      → RunRecord
      → String
      → Fields
      → Change
      → Bool
      → Option String
      → Database
      → Result Outcome × Database
  commit captured current transition payload change terminal release db =
      mutate_body canonical_hash session
        (recovery_request decimal captured current transition payload)
        (recovery_build current.job_id transition change terminal release now) none handle
        (run meanwhile db)

  abbrev pub committed_run : ProjectState → RunRecord → RunRecord
  committed_run s current = run_or (get s.runs current.job_id) current

  abbrev pub after_commit :
      RunRecord
      → RecoveryAction
      → Option String
      → Result Outcome × Database
      → Result RecoveryResult × Database
  after_commit current action reason (err e, db) = (err e, db)
  after_commit current action reason (ok o, db) =
      (ok (recovery_result o.state (committed_run o.state current) action reason), db)

  -- `pause`
  unfoldable pub pause :
      ProjectState → RunRecord → String → Database → Result RecoveryResult × Database
  pause s current reason db = after_commit current RecoveryAction.blocked (some reason) (
      commit s current ("pause:" ++ code_of reason ++ ":" ++ digest reason)
        (object_of "reason" (Json.str reason)) (paused_change reason) false none db)

  -- `recoverWorker`
  unfoldable pub recover_worker :
      ProjectState → RunRecord → Database → Result RecoveryResult × Database
  recover_worker s current db =
      let attempt = last current.worker_attempts in
      if timed_out attempt
      then (
        ok (
            recovery_result s current RecoveryAction.wait_for_leader
              (some "ATTEMPT_DEADLINE_EXCEEDED")),
        db,
      )
      else (if runtime.inspect_worker attempt
          then after_commit current RecoveryAction.start_new_worker_attempt none (
              commit s current "worker:START_NEW_WORKER_ATTEMPT"
                (object_of "observed" (Json.str "STOPPED")) (restarted_change attempt ended_at)
                false none db)
          else pause s current "PAUSED_PROCESS_RECONCILIATION:WORKER_OUTCOME_UNKNOWN" db)

  abbrev pub after_completed :
      RunRecord → Result Outcome × Database → Result RecoveryResult × Database
  after_completed current (err e, db) = (err e, db)
  after_completed current (ok o, db) =
      let completed = committed_run o.state current in
      (
        cleanup completed >>= λ _.
            ok (recovery_result o.state completed RecoveryAction.publish_reconciled none),
        db,
      )

  abbrev invalid_binding : ProjectState → RunRecord → Database → Result RecoveryResult × Database
  invalid_binding s current db =
      pause s current "PUBLISH_RECOVERY_BLOCKED:RESULT_BINDING_INVALID" db

  abbrev pub settle_committed :
      ProjectState
      → RunRecord
      → PublishAttempt
      → PublishRecoveryObservation
      → Option PublishResult
      → Database
      → Result RecoveryResult × Database
  settle_committed s current publish observed none db = invalid_binding s current db
  settle_committed s current publish observed (some result) db =
      if result_bound publish (publish_committed result.status) result
      then after_completed current (
          commit s current "publish:committed" (object_of "observed" (observation_json observed))
            (completed_change publish result) true (some publish.operation_id) db)
      else invalid_binding s current db

  abbrev pub settle_conflict :
      ProjectState
      → RunRecord
      → PublishAttempt
      → PublishRecoveryObservation
      → Option PublishResult
      → Database
      → Result RecoveryResult × Database
  settle_conflict s current publish observed none db = invalid_binding s current db
  settle_conflict s current publish observed (some result) db =
      if result_bound publish (publish_conflict result.status) result
      then after_commit current RecoveryAction.publish_reconciled none (
          commit s current "publish:conflict" (object_of "observed" (observation_json observed))
            (conflict_change publish result) false (some publish.operation_id) db)
      else invalid_binding s current db

  abbrev pub settle_observed :
      ProjectState
      → RunRecord
      → PublishAttempt
      → PublishRecoveryObservation
      → ObservedStatus
      → Database
      → Result RecoveryResult × Database
  settle_observed s current publish observed ObservedStatus.committed db =
      settle_committed s current publish observed observed.result db
  settle_observed s current publish observed ObservedStatus.conflict db =
      settle_conflict s current publish observed observed.result db
  settle_observed s current publish observed ObservedStatus.unknown db =
      pause s current "PUBLISH_RECOVERY_BLOCKED:UNKNOWN" db

  abbrev pub recover_attempt :
      ProjectState → RunRecord → Option PublishAttempt → Database → Result RecoveryResult × Database
  recover_attempt s current none db = pause s current "PUBLISH_ATTEMPT_MISSING" db
  recover_attempt s current (some publish) db =
      let observed = runtime.reconcile_publish publish.operation_id publish.operations_hash in
      settle_observed s current publish observed observed.status db

  -- `recoverPublish`
  unfoldable pub recover_publish :
      ProjectState → RunRecord → Database → Result RecoveryResult × Database
  recover_publish s current db = recover_attempt s current current.publish db

  abbrev is_canceled : RunPhase → Bool
  is_canceled RunPhase.canceled = true
  is_canceled _ = false

  abbrev after_cancellation :
      RunRecord → Bool → Database → Result ProjectState → Result RecoveryResult × Database
  after_cancellation current canceled db (err e) = (err e, db)
  after_cancellation current canceled db (ok s) =
      let recovered = committed_run s current in
      if canceled && is_canceled recovered.phase
      then (ok (recovery_result s recovered RecoveryAction.continue_cancellation none), db)
      else (
        ok (
            recovery_result s recovered RecoveryAction.blocked
              (some "CANCELLATION_RECONCILIATION_BLOCKED")),
        db,
      )

  -- `recoverCancellation`
  unfoldable pub recover_cancellation : RunRecord → Database → Result RecoveryResult × Database
  recover_cancellation current db =
      let (canceled, after) = runtime.continue_cancellation db in
      after_cancellation current canceled after (read_state after)

  -- The switch on the phase.
  unfoldable pub recover_phase :
      ProjectState → RunRecord → RunPhase → Database → Result RecoveryResult × Database
  recover_phase s current RunPhase.preparing db =
      (ok (recovery_result s current RecoveryAction.rebuild_workspace none), db)
  recover_phase s current RunPhase.running db = recover_worker s current db
  recover_phase s current RunPhase.fixing db =
      (ok (recovery_result s current RecoveryAction.prepare_repair none), db)
  recover_phase s current RunPhase.review_pending db =
      (ok (recovery_result s current RecoveryAction.run_review none), db)
  recover_phase s current RunPhase.reviewing db =
      if awaits_review current.host_turn
      then (ok (recovery_result s current RecoveryAction.run_review none), db)
      else pause s current "HOST_REVIEW_UNAVAILABLE:REVIEW_TURN_STATE_MISSING" db
  recover_phase s current RunPhase.ready_to_publish db =
      (ok (recovery_result s current RecoveryAction.recheck_publish_readiness none), db)
  recover_phase s current RunPhase.publishing db = recover_publish s current db
  recover_phase s current RunPhase.canceling db = recover_cancellation current db
  recover_phase s current _ db = (ok (recovery_result s current RecoveryAction.nothing none), db)

  abbrev pub recover_run :
      ProjectState → RunRecord → Option String → Database → Result RecoveryResult × Database
  recover_run s current none db = recover_phase s current current.phase db
  recover_run s current (some failure) db =
      if is_terminal current.phase || is_canceling current.phase
      then (ok (recovery_result s current RecoveryAction.blocked (some failure)), db)
      else pause s current failure db

  abbrev after_lookup :
      (RunRecord → Option String)
      → ProjectState
      → Database
      → Option RunRecord
      → Result RecoveryResult × Database
  after_lookup verify s db none = (err (thrown "Unknown recovery run"), db)
  after_lookup verify s db (some current) = recover_run s current (verify current) db

  abbrev after_read :
      (RunRecord → Option String)
      → String
      → Database
      → Result ProjectState
      → Result RecoveryResult × Database
  after_read verify job_id db (err e) = (err e, db)
  after_read verify job_id db (ok s) = after_lookup verify s db (get s.runs job_id)

  -- `RecoveryManager.recover`, where `verify` stands for `verifyRunArtifacts`.
  unfoldable pub recover :
      (RunRecord → Option String) → String → Database → Result RecoveryResult × Database
  recover verify job_id db = after_read verify job_id db (read_state db)
