-- ===== src/State/Refine.antt =====
-- packages/state-store/src/schema.ts: what the schemas demand of a Run and of the Project state
-- beyond their shapes. Each check answers whether the schema adds no issue.
use ai_smart_flow.Shared.{
  ℕ, Bool, true, false, String, List, map, Option, none, some, not, ◌&&◌, ◌||◌, ◌==◌, nat_eq,
  text_eq, every, distinct, length, leb, opt_eq, Dict, get, every_entry, keep,
}
use ai_smart_flow.Protocol.Phase.{is_active, is_terminal}
use ai_smart_flow.Protocol.Records.{WorkerAttempt, PublishResult}
use ai_smart_flow.Protocol.Refine.{
  is_some, bool_eq, refine_attempt, refine_publish_result, publish_committed, publish_conflict,
}
use ai_smart_flow.State.Records.{
  AttemptStatus, PublishAttempt, RunRecord, PublishLease, ProjectState,
}

abbrev pub attempt_terminal : AttemptStatus → Bool
attempt_terminal AttemptStatus.prepared = false
attempt_terminal AttemptStatus.submitted = false
attempt_terminal _ = true

-- A status that fixes the status of the result.
abbrev status_allows : AttemptStatus → PublishResult → Bool
status_allows AttemptStatus.committed r = publish_committed r.status
status_allows AttemptStatus.conflict r = publish_conflict r.status
status_allows _ r = true

abbrev result_matches : PublishAttempt → Option PublishResult → Bool
result_matches a none = true
result_matches a (some r) =
    r.operation_id == a.operation_id
    && r.operations_hash == a.operations_hash
    && status_allows a.status r
    && refine_publish_result r

-- `publishAttemptSchema`
unfoldable pub refine_publish_attempt : PublishAttempt → Bool
refine_publish_attempt a =
    bool_eq (attempt_terminal a.status) (is_some a.result) && result_matches a a.result

abbrev pub refine_publish : Option PublishAttempt → Bool
refine_publish none = true
refine_publish (some a) = refine_publish_attempt a

abbrev pub active_attempts : List WorkerAttempt → ℕ
active_attempts attempts = length (keep (λ (a : WorkerAttempt). is_active a.status) attempts)

-- `runRecordSchema`
unfoldable pub refine_run : RunRecord → Bool
refine_run run =
    leb 1 run.fence
    && every refine_attempt run.worker_attempts
    && distinct (map (λ (a : WorkerAttempt). a.attempt_id) run.worker_attempts)
    && leb (active_attempts run.worker_attempts) 1
    && refine_publish run.publish

-- An active binding references the matching nonterminal Run.
abbrev pub binding_matches : String → Option RunRecord → Bool
binding_matches task_path none = false
binding_matches task_path (some run) =
    run.canonical_task_path == task_path && not (is_terminal run.phase)

abbrev pub owns_binding : Dict String → RunRecord → Bool
owns_binding active run = opt_eq (get active run.canonical_task_path) (some run.job_id)

abbrev pub lease_run_matches : Dict String → Option RunRecord → Bool
lease_run_matches active none = false
lease_run_matches active (some run) = owns_binding active run

abbrev pub lease_matches : ProjectState → Option PublishLease → Bool
lease_matches s none = true
lease_matches s (some lease) =
    lease_run_matches s.active_runs_by_task_path (get s.runs lease.job_id)

-- `projectStateSchema`
unfoldable pub refine_state : ProjectState → Bool
refine_state s =
    every_entry (λ key run. refine_run run && key == run.job_id) s.runs
    && every_entry (λ task_path job_id. binding_matches task_path (get s.runs job_id))
        s.active_runs_by_task_path
    && every_entry (λ key run. is_terminal run.phase || owns_binding s.active_runs_by_task_path run)
        s.runs
    && lease_matches s s.publish_lease
