-- ===== src/Cancel/Manager.antt =====
-- apps/daemon/src/cancel/cancel-manager.ts: `CancelManager.reconcile`. The runtime's answers are
-- arguments (`false` where the call is rejected), as are the times that are read and the clean-up of
-- temporary files. The mutations are made under a lease that is held.
use Prim.Native.String.{◌++◌}
use ai_smart_flow.Shared.{
  ℕ, Bool, true, false, String, List, [], ◌∷◌, map, Option, none, some, not, ◌==◌, text_eq,
  if◌then◌else◌, Dict, get, put, drop_key, last, nat_eq,
}
use ai_smart_flow.Errors.{Result, ok, err, ◌>>=◌, thrown}
use ai_smart_flow.Protocol.Json.{Json, Items, Fields, field_get, field_put}
use ai_smart_flow.Protocol.Phase.{RunPhase, WorkerStatus, phase_eq, is_active}
use ai_smart_flow.Protocol.Records.{WorkerAttempt}
use ai_smart_flow.State.Records.{RunRecord, ProjectState, PublishAttempt, AttemptStatus}
use ai_smart_flow.Store.Database.{Database, Env, read_state}
use ai_smart_flow.Store.Handle.{Handle}
use ai_smart_flow.Store.Schedule.{Operation, run}
use ai_smart_flow.Mutation.Executor.{Request, canonical, Outcome, Build, Session}
use ai_smart_flow.Mutation.Mutate.{mutate_body}
use ai_smart_flow.Mutation.Bound.{bound_request}

pub record CancellationRuntime : Type 0 where
  pub stop_worker : Option WorkerAttempt → Bool
  pub revoke_action : String → Bool

pub record CancellationResult : Type 0 where
  pub job_id : String
  pub phase : RunPhase
  pub state_version : ℕ
  pub reconciled : Bool
  pub blocked_reasons : List String

abbrev text_field : Option Json → Option String
text_field (some (Json.str s)) = some s
text_field _ = none

abbrev pending_text : Option Fields → Option String
pending_text none = none
pending_text (some fields) = text_field (field_get fields "actionId")

-- `actionId`
unfoldable pub action_id : RunRecord → Option String
action_id run = pending_text run.pending_action

abbrev unbound : Dict String → RunRecord → Bool → Dict String
unbound active run terminal = if terminal then drop_key active run.canonical_task_path else active

abbrev pub with_run :
    ProjectState → String → RunRecord → (RunRecord → RunRecord) → Bool → String → ProjectState
with_run s job_id run change terminal now =
    let changed = change run in
    record s {
      active_runs_by_task_path = unbound s.active_runs_by_task_path run terminal;
      runs = put s.runs job_id (record changed { updated_at = now });
      updated_at = now;
    }

abbrev pub with_found :
    ProjectState
    → String
    → Option RunRecord
    → (RunRecord → RunRecord)
    → Bool
    → String
    → Result ProjectState
with_found s job_id none change terminal now = err (thrown "Unknown cancellation run")
with_found s job_id (some run) change terminal now = ok (with_run s job_id run change terminal now)

-- `nextStateWithRun`
unfoldable pub next_state_with_run :
    ProjectState → String → (RunRecord → RunRecord) → Bool → String → Result ProjectState
next_state_with_run s job_id change terminal now =
    with_found s job_id (get s.runs job_id) change terminal now

abbrev pub canceled_attempt : String → String → WorkerAttempt → WorkerAttempt
canceled_attempt active_id ended_at attempt =
    if attempt.attempt_id == active_id
    then record attempt {
      status = WorkerStatus.canceled;
      terminal_reason = some "RUN_CANCELED";
      ended_at = some ended_at;
    }
    else attempt

abbrev pub cancel_last : String → List WorkerAttempt → Option WorkerAttempt → List WorkerAttempt
cancel_last ended_at attempts none = attempts
cancel_last ended_at attempts (some active) =
    if is_active active.status
    then map (canceled_attempt active.attempt_id ended_at) attempts
    else attempts

-- `cancelActiveAttempt`
unfoldable pub cancel_active_attempt : RunRecord → String → List WorkerAttempt
cancel_active_attempt run ended_at =
    cancel_last ended_at run.worker_attempts (last run.worker_attempts)

abbrev reason_if : Bool → String → List String → List String
reason_if test reason rest = if test then reason ∷ rest else rest

abbrev revocation_failed : CancellationRuntime → Option String → Bool
revocation_failed runtime none = false
revocation_failed runtime (some action) = not (runtime.revoke_action action)

-- `PREPARED`, `SUBMITTED` or `UNKNOWN`
abbrev pub unsettled : Option PublishAttempt → Bool
unsettled none = false
unsettled (some a) = elim a.status [
  | AttemptStatus.prepared ↦ true
  | AttemptStatus.submitted ↦ true
  | AttemptStatus.unknown ↦ true
  | _ ↦ false
]

-- What stands in the way of the cancellation.
unfoldable pub blocked_reasons : CancellationRuntime → RunRecord → List String
blocked_reasons runtime run =
    reason_if (not (runtime.stop_worker (last run.worker_attempts))) "WORKER_STOP_UNCONFIRMED" (
      reason_if (revocation_failed runtime (action_id run)) "ACTION_REVOCATION_UNCONFIRMED"
        (reason_if (unsettled run.publish) "PUBLISH_RECONCILIATION_REQUIRED" []))

abbrev pub join : String → List String → String
join separator [] = ""
join separator (text ∷ []) = text
join separator (text ∷ next ∷ texts) = text ++ separator ++ join separator (next ∷ texts)

abbrev pub texts : List String → Items
texts [] = Items.nil
texts (text ∷ rest) = Items.cons (Json.str text) (texts rest)

abbrev pub object_of : String → Json → Fields
object_of key value = Fields.field key value Fields.end

-- A request of the cancellation.
abbrev pub cancel_request : String → Fields → RunRecord → String → Request
cancel_request request_id payload run job_id =
    bound_request request_id (Json.obj payload) canonical none run job_id (RunPhase.canceling ∷ [])

abbrev pub fields_or_none : Option Fields → Fields
fields_or_none none = Fields.end
fields_or_none (some fields) = fields

abbrev pub blocked_run : List String → RunRecord → RunRecord
blocked_run reasons current = record current {
  phase = RunPhase.paused;
  pause = some (record {
    code = "PAUSED_PROCESS_RECONCILIATION";
    resume_actions = "retry_cancel" ∷ "cancel" ∷ [];
  });
  cancellation = some (
      field_put (field_put (fields_or_none current.cancellation) "status" (Json.str "BLOCKED"))
        "blockedReasons" (Json.arr (texts reasons)));
  last_error = some (record {
    code = "PAUSED_PROCESS_RECONCILIATION";
    stage = "cancel";
    message = join "," reasons;
    retryable = true;
    next_actions = "retry_cancel" ∷ "cancel" ∷ [];
    artifacts = [];
  });
}

unfoldable pub canceled_run : String → RunRecord → RunRecord
canceled_run ended_at current = record current {
  phase = RunPhase.canceled;
  cancellation = some (
      field_put (field_put (fields_or_none current.cancellation) "status" (Json.str "COMPLETED"))
        "completedAt" (Json.str ended_at));
  worker_attempts = cancel_active_attempt current ended_at;
  pending_action = none;
  pause = none;
  last_error = none;
}

unfoldable pub blocked_build : String → List String → String → Build
blocked_build job_id reasons now s context = do
  next ← next_state_with_run s job_id (blocked_run reasons) false now
  ok (record {
    next_state = next;
    response = Json.obj (
        Fields.field "phase" (Json.str "PAUSED")
          (object_of "blockedReasons" (Json.arr (texts reasons))));
  })

unfoldable pub canceled_build : String → String → String → Build
canceled_build job_id ended_at now s context = do
  next ← next_state_with_run s job_id (canceled_run ended_at) true now
  ok (record {
    next_state = next;
    response =
        Json.obj
          (Fields.field "phase" (Json.str "CANCELED") (object_of "status" (Json.str "COMPLETED")));
  })

unfoldable pub blocked_request : String → List String → RunRecord → Request
blocked_request job_id reasons run =
    cancel_request ("cancel:" ++ job_id ++ ":blocked:" ++ join "+" reasons)
      (object_of "blockedReasons" (Json.arr (texts reasons))) run job_id

unfoldable pub canceled_request : String → RunRecord → Request
canceled_request job_id run =
    cancel_request ("cancel:" ++ job_id ++ ":completed") (object_of "status" (Json.str "COMPLETED"))
      run job_id

abbrev pub result_of : ProjectState → RunRecord → Bool → List String → CancellationResult
result_of s run reconciled reasons = record {
  job_id = run.job_id;
  phase = run.phase;
  state_version = s.state_version;
  reconciled = reconciled;
  blocked_reasons = reasons;
}

-- `committed.runs[jobId] ?? run`
abbrev pub run_or : Option RunRecord → RunRecord → RunRecord
run_or none fallback = fallback
run_or (some run) fallback = run

module _ (canonical_hash : Json → String) (session : Session) (runtime : CancellationRuntime)
    (cleanup : RunRecord → Result (Unit {0})) (ended_at now : String) (handle : Handle)
    (meanwhile : List (Env × Operation)) (job_id : String) where
  abbrev pub after_blocked :
      RunRecord → List String → Result Outcome × Database → Result CancellationResult × Database
  after_blocked current reasons (err e, db) = (err e, db)
  after_blocked current reasons (ok o, db) =
      (ok (result_of o.state (run_or (get o.state.runs job_id) current) false reasons), db)

  abbrev pub after_canceled :
      RunRecord → Result Outcome × Database → Result CancellationResult × Database
  after_canceled current (err e, db) = (err e, db)
  after_canceled current (ok o, db) =
      let canceled = run_or (get o.state.runs job_id) current in
      (cleanup canceled >>= λ _. ok (result_of o.state canceled true []), db)

  -- What follows the collection of reasons, during which the other processes went on.
  abbrev pub settle : RunRecord → List String → Database → Result CancellationResult × Database
  settle current [] db = after_canceled current (
      mutate_body canonical_hash session (canceled_request job_id current)
        (canceled_build job_id ended_at now) none handle db)
  settle current (reason ∷ reasons) db = after_blocked current (reason ∷ reasons) (
      mutate_body canonical_hash session (blocked_request job_id (reason ∷ reasons) current)
        (blocked_build job_id (reason ∷ reasons) now) none handle db)

  abbrev pub reconcile_run :
      ProjectState → Database → RunRecord → Result CancellationResult × Database
  reconcile_run s db current =
      if current.phase == RunPhase.canceled
      then (ok (result_of s current true []), db)
      else (if current.phase == RunPhase.canceling
          then settle current (blocked_reasons runtime current) (run meanwhile db)
          else (err (thrown "Cancellation reconciliation requires CANCELING"), db))

  abbrev after_lookup :
      ProjectState → Database → Option RunRecord → Result CancellationResult × Database
  after_lookup s db none = (err (thrown "Unknown cancellation run"), db)
  after_lookup s db (some current) = reconcile_run s db current

  abbrev after_read : Database → Result ProjectState → Result CancellationResult × Database
  after_read db (err e) = (err e, db)
  after_read db (ok s) = after_lookup s db (get s.runs job_id)

  -- `CancelManager.reconcile`
  unfoldable pub reconcile : Database → Result CancellationResult × Database
  reconcile db = after_read db (read_state db)
