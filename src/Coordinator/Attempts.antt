-- ===== src/Coordinator/Attempts.antt =====
-- apps/daemon/src/publish/publish-coordinator.ts: `StateStorePublishAttemptStore`, which keeps the
-- attempt of a publication and its lease in the project state. The times that are read, the apply
-- boundary and the application itself are arguments, and so are `decimal` for `String(n)` and the
-- JSON texts of an attempt and of a result. The mutations are made under a lease that is held.
use Prim.Native.String.{◌++◌}
use ai_smart_flow.Shared.{
  ℕ, Bool, false, String, List, [], ◌∷◌, Option, none, some, ◌==◌, text_eq, nat_eq, if◌then◌else◌,
  get,
}
use ai_smart_flow.Errors.{Result, ok, err, thrown}
use ai_smart_flow.Protocol.Json.{Json, Fields}
use ai_smart_flow.Protocol.Phase.{RunPhase, phase_eq}
use ai_smart_flow.Protocol.Records.{PublishResult}
use ai_smart_flow.State.Records.{ProjectState, PublishAttempt, AttemptStatus}
use ai_smart_flow.Store.Database.{Database, Env, read_state}
use ai_smart_flow.Store.Handle.{Handle}
use ai_smart_flow.Store.Schedule.{Operation, run}
use ai_smart_flow.Mutation.Executor.{Request, Outcome, Build, Prepare, Session}
use ai_smart_flow.Mutation.Mutate.{mutate_body}
use ai_smart_flow.Cancel.Manager.{object_of}
use ai_smart_flow.Coordinator.Builds.{
  Identity, identity_matches, identity_request, lease_is, lease_free_for, status_text, status_name,
  acquired_of, acquire_build, release_build, answer_of, prepare_build, active_publish, submit_build,
  recovery_build, complete_build,
}

module _ (canonical_hash : Json → String) (decimal : ℕ → String)
    (attempt_json : PublishAttempt → Json) (result_json : PublishResult → Json) (session : Session)
    (handle : Handle) (meanwhile : List (Env × Operation)) (now : String) (job_id : String)
    (identity : Identity) where
  abbrev pub mutated : Request → Build → Option Prepare → Database → Result Outcome × Database
  mutated r build prepare db =
      mutate_body canonical_hash session r build prepare handle (run meanwhile db)

  abbrev pub discard : Result Outcome × Database → Result (Unit {0}) × Database
  discard (err e, db) = (err e, db)
  discard (ok o, db) = (ok tt, db)

  abbrev matching : String → Option PublishAttempt → Option PublishAttempt
  matching operation_id none = none
  matching operation_id (some a) = if a.operation_id == operation_id then some a else none

  abbrev got : String → Result ProjectState → Result (Option PublishAttempt)
  got operation_id (err e) = err e
  got operation_id (ok s) =
      if identity_matches s job_id identity
      then ok (matching operation_id (active_publish (get s.runs job_id)))
      else err (thrown "PUBLISH_EXECUTION_STALE")

  -- `get`
  unfoldable pub get_attempt : String → Database → Result (Option PublishAttempt) × Database
  get_attempt operation_id db = (got operation_id (read_state db), db)

  abbrev pub lease_request : String → String → ProjectState → Request
  lease_request operation_id verb observed =
      identity_request
        ("publish-lease:" ++ operation_id ++ ":" ++ verb ++ ":f" ++ decimal observed.project_fence)
        (Json.obj (
          Fields.field "operationId" (Json.str operation_id) (object_of "jobId" (Json.str job_id))))
        identity job_id (RunPhase.ready_to_publish ∷ RunPhase.publishing ∷ [])

  abbrev pub after_acquired : Result Outcome × Database → Result Bool × Database
  after_acquired (err e, db) = (err e, db)
  after_acquired (ok o, db) = (ok (acquired_of o.response), db)

  abbrev after_observed : String → Database → Result ProjectState → Result Bool × Database
  after_observed operation_id db (err e) = (err e, db)
  after_observed operation_id db (ok observed) =
      if lease_free_for observed.publish_lease job_id operation_id
      then after_acquired (
          mutated (lease_request operation_id "acquire" observed)
            (acquire_build job_id operation_id now) none db)
      else (ok false, db)

  -- `acquireLease`
  unfoldable pub acquire_lease : String → Database → Result Bool × Database
  acquire_lease operation_id db = after_observed operation_id db (read_state db)

  abbrev release_observed : String → Database → Result ProjectState → Result (Unit {0}) × Database
  release_observed operation_id db (err e) = (err e, db)
  release_observed operation_id db (ok observed) =
      if lease_is observed.publish_lease job_id operation_id
      then discard (
          mutated (lease_request operation_id "release" observed)
            (release_build job_id operation_id) none db)
      else (ok tt, db)

  -- `releaseLease`
  unfoldable pub give_back_lease : String → Database → Result (Unit {0}) × Database
  give_back_lease operation_id db = release_observed operation_id db (read_state db)

  -- `prepare`
  unfoldable pub prepare_attempt : PublishAttempt → Database → Result (Unit {0}) × Database
  prepare_attempt attempt db = discard (
      mutated
        (identity_request ("publish:" ++ attempt.operation_id ++ ":prepared") (attempt_json attempt)
          identity job_id (RunPhase.ready_to_publish ∷ []))
        (prepare_build job_id attempt now) none db)

  abbrev pub submit_request : String → Request
  submit_request operation_id =
      identity_request ("publish:" ++ operation_id ++ ":submitted")
        (answer_of operation_id "SUBMITTED") identity job_id (RunPhase.publishing ∷ [])

  -- The application starts where the executor hands over to the effect.
  abbrev pub after_submitted {ℓ} :
      {A : Type ℓ}
      → (Database → Result A × Database)
      → Result Outcome × Database
      → Result A × Database
  after_submitted apply (err e, db) = (err e, db)
  after_submitted apply (ok o, db) =
      if o.effect_started
      then apply db
      else (err (thrown "PUBLISH_APPLY_HANDOFF_REPLAY_BLOCKED"), db)

  abbrev with_boundary {ℓ} :
      {A : Type ℓ}
      → String
      → (Database → Result A × Database)
      → Option (ProjectState → Result (Unit {0}))
      → Database
      → Result A × Database
  with_boundary operation_id apply none db = (err (thrown "PUBLISH_APPLY_BOUNDARY_MISSING"), db)
  with_boundary operation_id apply (some boundary) db = after_submitted apply (
      mutated (submit_request operation_id) (submit_build job_id operation_id boundary now)
        (some (λ committed response. boundary committed)) db)

  -- `markSubmittedAndApply`
  unfoldable pub mark_submitted_and_apply {ℓ} :
      {A : Type ℓ}
      → String
      → (Database → Result A × Database)
      → Option (ProjectState → Result (Unit {0}))
      → Database
      → Result A × Database
  mark_submitted_and_apply operation_id apply boundary db =
      with_boundary operation_id apply boundary db

  abbrev if_run :
      Result ProjectState → Database → Result (Unit {0}) × Database → Result (Unit {0}) × Database
  if_run (err e) db then_do = (err e, db)
  if_run (ok s) db then_do = elim (get s.runs job_id) [
    | none ↦ (err (thrown "PUBLISH_RUN_MISSING"), db)
    | some run ↦ then_do
  ]

  -- `beginRecovery`
  unfoldable pub begin_recovery : PublishAttempt → Database → Result (Unit {0}) × Database
  begin_recovery attempt db = if_run (read_state db) db (
      discard (
        mutated
          (identity_request
            ("publish:" ++ attempt.operation_id ++ ":begin-recovery:" ++ status_name attempt.status)
            (attempt_json attempt) identity job_id
            (RunPhase.ready_to_publish ∷ RunPhase.publishing ∷ []))
          (recovery_build job_id attempt now) none db))

  abbrev pub complete_request : String → AttemptStatus → PublishResult → Request
  complete_request operation_id status result =
      identity_request ("publish:" ++ operation_id ++ ":" ++ status_text status)
        (Json.obj (
          Fields.field "operationId" (Json.str operation_id) (
            Fields.field "status" (Json.str (status_name status))
              (object_of "result" (result_json result)))))
        identity job_id (RunPhase.publishing ∷ [])

  -- `complete`
  unfoldable pub complete_attempt :
      String → AttemptStatus → PublishResult → Database → Result (Unit {0}) × Database
  complete_attempt operation_id status result db = if_run (read_state db) db (
      discard (
        mutated (complete_request operation_id status result)
          (complete_build job_id operation_id status result now) none db))
