-- ===== src/Recovery/Changes.antt =====
-- apps/daemon/src/recovery/recovery-manager.ts: what a recovery answers, and the changes that it makes
-- to the run and to the state. `decimal` stands for `String(n)`.
use Prim.Native.String.{◌++◌, [] as end_of_text, ◌∷◌ as char_then}
use ai_smart_flow.Shared.{
  ℕ, Bool, true, false, String, [], ◌∷◌, map, Option, none, some, ◌&&◌, ◌==◌, text_eq,
  if◌then◌else◌, get,
}
use ai_smart_flow.Errors.{Result, ok, err, ◌>>=◌, ◌>>◌, ensure, thrown}
use ai_smart_flow.Protocol.Json.{Json, Fields}
use ai_smart_flow.Protocol.Phase.{RunPhase, WorkerStatus, is_active}
use ai_smart_flow.Protocol.Records.{WorkerAttempt, PublishResult}
use ai_smart_flow.Protocol.Refine.{refine_publish_result}
use ai_smart_flow.State.Records.{
  RunRecord, ProjectState, PublishAttempt, PublishLease, AttemptStatus, HostTurn,
}
use ai_smart_flow.Store.Database.{Database}
use ai_smart_flow.Store.Schedule.{run}
use ai_smart_flow.Mutation.Executor.{Request, current_epoch, Build}
use ai_smart_flow.Mutation.Bound.{bound_request}
use ai_smart_flow.Cancel.Manager.{with_run, object_of}

pub data RecoveryAction : Type 0 where
  nothing rebuild_workspace start_new_worker_attempt prepare_repair run_review wait_for_leader
        recheck_publish_readiness publish_reconciled continue_cancellation blocked :
      RecoveryAction

pub data ObservedStatus : Type 0 where
  committed conflict unknown : ObservedStatus

pub record PublishRecoveryObservation : Type 0 where
  pub status : ObservedStatus
  pub result : Option PublishResult

-- `inspect_worker` answers whether the worker has stopped, `continue_cancellation` whether the run
-- was canceled.
pub record RecoveryRuntime : Type 0 where
  pub inspect_worker : Option WorkerAttempt → Bool
  pub reconcile_publish : String → String → PublishRecoveryObservation
  pub continue_cancellation : Database → Bool × Database

pub record RecoveryResult : Type 0 where
  pub job_id : String
  pub phase : RunPhase
  pub action : RecoveryAction
  pub state_version : ℕ
  pub reason : Option String

abbrev pub recovery_result :
    ProjectState → RunRecord → RecoveryAction → Option String → RecoveryResult
recovery_result s run action reason = record {
  job_id = run.job_id;
  phase = run.phase;
  action = action;
  state_version = s.state_version;
  reason = reason;
}

abbrev pub Change : Type 0
Change = RunRecord → Result RunRecord

abbrev changed_state :
    ProjectState → String → RunRecord → Result RunRecord → Bool → String → Result ProjectState
changed_state s job_id run (err e) terminal now = err e
changed_state s job_id run (ok changed) terminal now =
    ok (with_run s job_id run (λ r. changed) terminal now)

abbrev pub with_change :
    ProjectState → String → Option RunRecord → Change → Bool → String → Result ProjectState
with_change s job_id none change terminal now = err (thrown "Unknown recovery run")
with_change s job_id (some run) change terminal now =
    changed_state s job_id run (change run) terminal now

-- `nextStateWithRun`
unfoldable pub recovered_state :
    ProjectState → String → Change → Bool → String → Result ProjectState
recovered_state s job_id change terminal now =
    with_change s job_id (get s.runs job_id) change terminal now

abbrev pub held_for : Option String → Option PublishLease → String → Bool
held_for none lease job_id = false
held_for (some operation) none job_id = false
held_for (some operation) (some lease) job_id =
    lease.job_id == job_id && lease.operation_id == operation

-- The lease of the publication that has been reconciled is given back.
abbrev pub release_lease : ProjectState → String → Option String → ProjectState
release_lease s job_id operation =
    if held_for operation s.publish_lease job_id then record s { publish_lease = none } else s

unfoldable pub recovery_build : String → String → Change → Bool → Option String → String → Build
recovery_build job_id transition change terminal release now s context = do
  next ← recovered_state s job_id change terminal now
  ok (record {
    next_state = release_lease next job_id release;
    response = Json.obj (object_of "transition" (Json.str transition));
  })

-- `reason.split(":", 1)[0]`
unfoldable pub code_of : String → String
code_of end_of_text = ""
code_of (char_then c cs) =
    let rest = code_of cs in if (char_then c end_of_text) == ":" then "" else char_then c rest

unfoldable pub paused_change : String → Change
paused_change reason current = ok (record current {
  phase = RunPhase.paused;
  pause =
      some (record { code = code_of reason; resume_actions = "inspect_recovery" ∷ "cancel" ∷ [] });
  last_error = some (record {
    code = code_of reason;
    stage = "recovery";
    message = reason;
    retryable = true;
    next_actions = "inspect_recovery" ∷ "cancel" ∷ [];
    artifacts = [];
  });
})

abbrev pub is_attempt : Option WorkerAttempt → WorkerAttempt → Bool
is_attempt none item = false
is_attempt (some a) item = item.attempt_id == a.attempt_id

abbrev pub reconciled_attempt : Option WorkerAttempt → String → WorkerAttempt → WorkerAttempt
reconciled_attempt attempt ended_at item =
    if is_attempt attempt item && is_active item.status
    then record item {
      status = WorkerStatus.failed;
      terminal_reason = some "DAEMON_RESTART_RECONCILED";
      ended_at = some ended_at;
    }
    else item

-- The run goes back to its preparation, and its last attempt has failed.
unfoldable pub restarted_change : Option WorkerAttempt → String → Change
restarted_change attempt ended_at current = ok (record current {
  phase = RunPhase.preparing;
  worker_attempts = map (reconciled_attempt attempt ended_at) current.worker_attempts;
  workspace = none;
  pause = none;
})

abbrev pub same_publication : PublishAttempt → Option PublishAttempt → Bool
same_publication expected none = false
same_publication expected (some a) =
    a.operation_id == expected.operation_id && a.operations_hash == expected.operations_hash

abbrev pub settled_attempt :
    Option PublishAttempt → AttemptStatus → PublishResult → Option PublishAttempt
settled_attempt none status result = none
settled_attempt (some a) status result = some (record a { status = status; result = some result })

-- The publication was committed.
unfoldable pub completed_change : PublishAttempt → PublishResult → Change
completed_change publish result current = do
  ensure (same_publication publish current.publish) (thrown "PUBLISH_RECOVERY_IDENTITY_MISMATCH")
  ok (record current {
    phase = RunPhase.completed;
    publish = settled_attempt current.publish AttemptStatus.committed result;
  })

-- The publication met a conflict.
unfoldable pub conflict_change : PublishAttempt → PublishResult → Change
conflict_change publish result current = do
  ensure (same_publication publish current.publish) (thrown "PUBLISH_RECOVERY_IDENTITY_MISMATCH")
  ok (record current {
    phase = RunPhase.paused;
    publish = settled_attempt current.publish AttemptStatus.conflict result;
    pause =
        some (record {
          code = "PUBLISH_CONFLICT";
          resume_actions = "inspect_conflict" ∷ "cancel" ∷ [];
        });
  })

abbrev pub result_bound : PublishAttempt → Bool → PublishResult → Bool
result_bound publish status_fits result =
    refine_publish_result result
    && result.operation_id == publish.operation_id
    && result.operations_hash == publish.operations_hash
    && status_fits

abbrev pub awaits_review : Option HostTurn → Bool
awaits_review (some (HostTurn.awaiting_review a b c d)) = true
awaits_review _ = false

abbrev pub timed_out : Option WorkerAttempt → Bool
timed_out none = false
timed_out (some a) = elim a.status [ WorkerStatus.timed_out ↦ true | _ ↦ false ]

abbrev pub is_canceling : RunPhase → Bool
is_canceling RunPhase.canceling = true
is_canceling _ = false

-- The request of a commit, on the state and the run that were read.
abbrev pub recovery_request : (ℕ → String) → ProjectState → RunRecord → String → Fields → Request
recovery_request decimal captured run transition payload =
    bound_request
      ("recovery:" ++ run.job_id ++ ":s" ++ decimal captured.state_version ++ ":" ++ transition)
      (Json.obj payload) current_epoch (some captured.state_version) run run.job_id (run.phase ∷ [])
