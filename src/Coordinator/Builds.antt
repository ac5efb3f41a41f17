-- ===== src/Coordinator/Builds.antt =====
-- apps/daemon/src/publish/publish-coordinator.ts: the requests of `StateStorePublishAttemptStore` and
-- the states that its mutations build.
use ai_smart_flow.Shared.{
  ℕ, ◌+◌, Bool, true, false, String, List, Option, none, some, ◌&&◌, ◌==◌, text_eq, nat_eq,
  if◌then◌else◌, get, last, opt_eq,
}
use ai_smart_flow.Errors.{Result, ok, err, ◌>>=◌, ◌>>◌, ensure, thrown}
use ai_smart_flow.Protocol.Json.{Json, Fields, field_get}
use ai_smart_flow.Protocol.Phase.{RunPhase, phase_eq}
use ai_smart_flow.Protocol.Records.{PublishResult}
use ai_smart_flow.State.Records.{
  RunRecord, ProjectState, PublishAttempt, PublishLease, AttemptStatus,
}
use ai_smart_flow.Store.Schedule.{run}
use ai_smart_flow.Mutation.Executor.{Request, canonical, Build, attempt_generation, attempt_id}
use ai_smart_flow.Cancel.Manager.{with_run, object_of}

-- `PublishExecutionIdentity`
pub record Identity : Type 0 where
  pub fence : ℕ
  pub generation : Option ℕ
  pub attempt_id : Option String

-- `publishIdentity`
unfoldable pub publish_identity : RunRecord → Identity
publish_identity run = record {
  fence = run.fence;
  generation = attempt_generation (last run.worker_attempts);
  attempt_id = attempt_id (last run.worker_attempts);
}

abbrev expects_same {ℓ} : {A : Type ℓ} → Option A → (A → Bool) → Bool
expects_same none test = true
expects_same (some a) test = test a

abbrev run_matches : ProjectState → String → Identity → Option RunRecord → Bool
run_matches s job_id identity none = false
run_matches s job_id identity (some run) =
    opt_eq (get s.active_runs_by_task_path run.canonical_task_path) (some job_id)
    && run.fence == identity.fence
    && expects_same identity.generation
        (λ g. opt_eq (attempt_generation (last run.worker_attempts)) (some g))
    && expects_same identity.attempt_id
        (λ a. opt_eq (attempt_id (last run.worker_attempts)) (some a))

-- `identityMatches`
unfoldable pub identity_matches : ProjectState → String → Identity → Bool
identity_matches s job_id identity = run_matches s job_id identity (get s.runs job_id)

abbrev wanted_attempt : Option String → Option (Option String)
wanted_attempt none = none
wanted_attempt (some a) = some (some a)

-- A request with `identityGuards`.
abbrev pub identity_request : String → Json → Identity → String → List RunPhase → Request
identity_request request_id payload identity job_id phases = record {
  request_id = request_id;
  payload = payload;
  replay_policy = canonical;
  expected_state_version = none;
  expected_fence = some identity.fence;
  expected_job_id = some job_id;
  expected_generation = identity.generation;
  expected_attempt_id = wanted_attempt identity.attempt_id;
  expected_phases = some phases;
  advance_fence = false;
}

abbrev changed_next :
    ProjectState → String → RunRecord → Result RunRecord → String → Result ProjectState
changed_next s job_id run (err e) now = err e
changed_next s job_id run (ok changed) now =
    ok (record (with_run s job_id run (λ r. changed) false now) {
      state_version = s.state_version + 1;
    })

abbrev pub next_of :
    ProjectState
    → String
    → Option RunRecord
    → (RunRecord → Result RunRecord)
    → String
    → Result ProjectState
next_of s job_id none change now = err (thrown "Unknown publish run")
next_of s job_id (some run) change now = changed_next s job_id run (change run) now

-- `nextState`, for a run that goes on.
unfoldable pub next_state :
    ProjectState → String → (RunRecord → Result RunRecord) → String → Result ProjectState
next_state s job_id change now = next_of s job_id (get s.runs job_id) change now

abbrev pub operation_of : Option PublishAttempt → Option String
operation_of none = none
operation_of (some a) = some a.operation_id

abbrev pub lease_is : Option PublishLease → String → String → Bool
lease_is none job_id operation_id = false
lease_is (some lease) job_id operation_id =
    lease.job_id == job_id && lease.operation_id == operation_id

abbrev pub lease_free_for : Option PublishLease → String → String → Bool
lease_free_for none job_id operation_id = true
lease_free_for (some lease) job_id operation_id = lease_is (some lease) job_id operation_id

abbrev pub is_prepared : AttemptStatus → Bool
is_prepared AttemptStatus.prepared = true
is_prepared _ = false

abbrev pub is_final : AttemptStatus → Bool
is_final AttemptStatus.committed = true
is_final AttemptStatus.conflict = true
is_final _ = false

abbrev pub status_text : AttemptStatus → String
status_text AttemptStatus.prepared = "prepared"
status_text AttemptStatus.submitted = "submitted"
status_text AttemptStatus.committed = "committed"
status_text AttemptStatus.conflict = "conflict"
status_text AttemptStatus.unknown = "unknown"

abbrev pub status_name : AttemptStatus → String
status_name AttemptStatus.prepared = "PREPARED"
status_name AttemptStatus.submitted = "SUBMITTED"
status_name AttemptStatus.committed = "COMMITTED"
status_name AttemptStatus.conflict = "CONFLICT"
status_name AttemptStatus.unknown = "UNKNOWN"

abbrev pub answered_bool : Option Json → Bool
answered_bool (some (Json.bool b)) = b
answered_bool _ = false

-- `response.acquired`
abbrev pub acquired_of : Json → Bool
acquired_of (Json.obj fields) = answered_bool (field_get fields "acquired")
acquired_of _ = false

abbrev pub taken : ProjectState → String → String → String → Option PublishLease → ProjectState
taken s job_id operation_id now none = record s {
  publish_lease = some (record { job_id = job_id; operation_id = operation_id; acquired_at = now });
}
taken s job_id operation_id now (some lease) = s

unfoldable pub acquire_build : String → String → String → Build
acquire_build job_id operation_id now s context = ok (record {
  next_state = taken s job_id operation_id now s.publish_lease;
  response =
      Json.obj
        (object_of "acquired" (Json.bool (lease_free_for s.publish_lease job_id operation_id)));
})

unfoldable pub release_build : String → String → Build
release_build job_id operation_id s context = ok (record {
  next_state =
      if lease_is s.publish_lease job_id operation_id then record s { publish_lease = none } else s;
  response = Json.obj (object_of "released" (Json.bool true));
})

abbrev pub answer_of : String → String → Json
answer_of operation_id status =
    Json.obj
      (Fields.field "operationId" (Json.str operation_id) (object_of "status" (Json.str status)))

unfoldable pub prepare_build : String → PublishAttempt → String → Build
prepare_build job_id attempt now s context = do
  next ←
      next_state s job_id
        (λ run.
          ensure (run.phase == RunPhase.ready_to_publish) (thrown "PUBLISH_PHASE_INVALID")
          >> ok (record run { phase = RunPhase.publishing; publish = some attempt }))
        now
  ok (record { next_state = next; response = answer_of attempt.operation_id "PREPARED" })

abbrev pub active_publish : Option RunRecord → Option PublishAttempt
active_publish none = none
active_publish (some run) = run.publish

abbrev pub submittable : String → Option PublishAttempt → Result PublishAttempt
submittable operation_id none = err (thrown "PUBLISH_OPERATION_STALE")
submittable operation_id (some a) =
    if a.operation_id == operation_id && is_prepared a.status
    then ok (record a { status = AttemptStatus.submitted })
    else err (thrown "PUBLISH_OPERATION_STALE")

-- `boundary` is the check that is made of the state before the files are touched.
unfoldable pub submit_build : String → String → (ProjectState → Result (Unit {0})) → String → Build
submit_build job_id operation_id boundary now s context = do
  submitted ← submittable operation_id (active_publish (get s.runs job_id))
  boundary s
  next ← next_state s job_id (λ run. ok (record run { publish = some submitted })) now
  ok (record { next_state = next; response = answer_of operation_id "SUBMITTED" })

abbrev same_attempt : PublishAttempt → Option PublishAttempt → Bool
same_attempt attempt none = false
same_attempt attempt (some a) =
    a.operation_id == attempt.operation_id
    && a.operations_hash == attempt.operations_hash
    && a.adapter_id == attempt.adapter_id

unfoldable pub recovery_build : String → PublishAttempt → String → Build
recovery_build job_id attempt now s context = do
  next ←
      next_state s job_id
        (λ run.
          ensure (same_attempt attempt run.publish) (thrown "PUBLISH_RECOVERY_IDENTITY_MISMATCH")
          >> ok (record run { phase = RunPhase.publishing; publish = some attempt }))
        now
  ok (record {
    next_state = next;
    response = Json.obj (
        Fields.field "operationId" (Json.str attempt.operation_id) (
          Fields.field "status" (Json.str (status_name attempt.status))
            (object_of "phase" (Json.str "PUBLISHING"))));
  })

abbrev pub settled :
    String → AttemptStatus → PublishResult → RunRecord → Option PublishAttempt → Result RunRecord
settled operation_id status result run none = err (thrown "PUBLISH_OPERATION_STALE")
settled operation_id status result run (some a) =
    if a.operation_id == operation_id
    then ok (record run { publish = some (record a { status = status; result = some result }) })
    else err (thrown "PUBLISH_OPERATION_STALE")

abbrev pub lease_after : AttemptStatus → Option PublishLease → Option PublishLease
lease_after status lease = if is_final status then none else lease

unfoldable pub complete_build : String → String → AttemptStatus → PublishResult → String → Build
complete_build job_id operation_id status result now s context = do
  next ← next_state s job_id (λ run. settled operation_id status result run run.publish) now
  ok (record {
    next_state = record next { publish_lease = lease_after status s.publish_lease };
    response = answer_of operation_id (status_name status);
  })
