-- ===== src/Mutation/Executor.antt =====
-- apps/daemon/src/runtime/project-mutation-executor.ts: `ProjectMutationExecutor.mutate`, which makes
-- one idempotent, guarded change of the project state under the mutation lease. The queue of the
-- calls of one process, and the renewal timer of the lease, are left out.
use ai_smart_flow.Shared.{
  ℕ, ◌+◌, Bool, true, false, String, Option, none, some, not, ◌&&◌, ◌||◌, ◌==◌, nat_eq, text_eq,
  if◌then◌else◌, opt_eq, List, Dict, get, put, last, includes,
}
use ai_smart_flow.Errors.{
  StoreCode, Failure, store, schema, has_code, Result, ok, err, ◌>>=◌, ◌>>◌, ensure,
}
use ai_smart_flow.Protocol.Json.{Json}
use ai_smart_flow.Protocol.Phase.{RunPhase, phase_eq}
use ai_smart_flow.Protocol.Records.{Receipt, WorkerAttempt}
use ai_smart_flow.Protocol.Refine.{is_some}
use ai_smart_flow.State.Records.{RunRecord, ProjectState}
use ai_smart_flow.State.Refine.{refine_state}
use ai_smart_flow.Store.Database.{Database, Env, read_state}
use ai_smart_flow.Store.Leases.{Tick}
use ai_smart_flow.Store.Handle.{Handle, write_state, assert_owned}
use ai_smart_flow.Store.Schedule.{Operation, run}

pub data ReplayPolicy : Type 0 where
  canonical current_epoch : ReplayPolicy

-- An absent expectation is `none`; `expected_attempt_id` may also expect that there is no attempt.
pub record Request : Type 0 where
  pub request_id : String
  pub payload : Json
  pub replay_policy : ReplayPolicy
  pub expected_state_version : Option ℕ
  pub expected_fence : Option ℕ
  pub expected_job_id : Option String
  pub expected_generation : Option ℕ
  pub expected_attempt_id : Option (Option String)
  pub expected_phases : Option (List RunPhase)
  pub advance_fence : Bool

pub record Context : Type 0 where
  pub fence : ℕ
  pub next_state_version : ℕ

pub record Draft : Type 0 where
  pub next_state : ProjectState
  pub response : Json

pub record Outcome : Type 0 where
  pub response : Json
  pub state : ProjectState
  pub replayed : Bool
  pub effect_started : Bool

abbrev pub Build : Type 0
Build = ProjectState → Context → Result Draft

-- `prepareEffect`: only whether it throws matters here.
abbrev pub Prepare : Type 0
Prepare = ProjectState → Json → Result (Unit {0})

-- What surrounds one call: the process as it observes the world at each step, and what the other
-- processes do to the database while the builder and the effect's preparation run.
pub record Session : Type 0 where
  pub token : String
  pub start : Env
  pub ticks : List Tick
  pub during_build : List (Env × Operation)
  pub write_env : Env
  pub updated_at : String
  pub during_prepare : List (Env × Operation)
  pub assert_env : Env
  pub release_env : Env

abbrev pub mutation_lease_wait_ms : ℕ
mutation_lease_wait_ms = 5000

abbrev pub active_run : ProjectState → Option String → Option RunRecord
active_run s none = none
active_run s (some job_id) = get s.runs job_id

abbrev pub current_attempt : Option RunRecord → Option WorkerAttempt
current_attempt none = none
current_attempt (some run) = last run.worker_attempts

abbrev replay_of : String → Option Receipt → Result (Option Json)
replay_of request_hash none = ok none
replay_of request_hash (some receipt) =
    if receipt.request_hash == request_hash
    then ok (some receipt.response)
    else err (store StoreCode.idempotency_key_reused)

-- `canonicalReplay`
unfoldable pub canonical_replay : ProjectState → String → String → Result (Option Json)
canonical_replay s request_id request_hash =
    replay_of request_hash (get s.processed_requests request_id)

abbrev pub run_fence : Option RunRecord → Option ℕ
run_fence none = none
run_fence (some run) = some run.fence

abbrev pub attempt_generation : Option WorkerAttempt → Option ℕ
attempt_generation none = none
attempt_generation (some a) = some a.generation

abbrev pub attempt_id : Option WorkerAttempt → Option String
attempt_id none = none
attempt_id (some a) = some a.attempt_id

abbrev pub run_phase_in : List RunPhase → Option RunRecord → Bool
run_phase_in phases none = false
run_phase_in phases (some run) = includes run.phase phases

abbrev pub run_is_active : ProjectState → String → Option RunRecord → Bool
run_is_active s job_id none = true
run_is_active s job_id (some run) =
    opt_eq (get s.active_runs_by_task_path run.canonical_task_path) (some job_id)

-- `expected === undefined ||` the test.
abbrev pub expects {ℓ} : {A : Type ℓ} → Option A → (A → Bool) → Bool
expects none test = true
expects (some a) test = test a

unfoldable pub version_expected : Request → ProjectState → Bool
version_expected r s =
    is_some (get s.processed_requests r.request_id)
    || expects r.expected_state_version (λ v. v == s.state_version)

unfoldable pub fence_expected : Request → ProjectState → Bool
fence_expected r s =
    expects r.expected_fence (λ f. opt_eq (some f) (run_fence (active_run s r.expected_job_id)))

unfoldable pub job_expected : Request → ProjectState → Bool
job_expected r s = expects r.expected_job_id (λ j. is_some (active_run s r.expected_job_id))

unfoldable pub binding_expected : Request → ProjectState → Bool
binding_expected r s =
    expects r.expected_job_id (λ j. run_is_active s j (active_run s r.expected_job_id))

unfoldable pub generation_expected : Request → ProjectState → Bool
generation_expected r s =
    expects r.expected_generation
      (λ g. opt_eq (attempt_generation (current_attempt (active_run s r.expected_job_id))) (some g))

unfoldable pub attempt_expected : Request → ProjectState → Bool
attempt_expected r s =
    expects r.expected_attempt_id
      (λ a. opt_eq (attempt_id (current_attempt (active_run s r.expected_job_id))) a)

unfoldable pub phase_expected : Request → ProjectState → Bool
phase_expected r s =
    expects r.expected_phases (λ ps. run_phase_in ps (active_run s r.expected_job_id))

-- The guards of `mutate`, in their order.
unfoldable pub check_guards : Request → ProjectState → Result (Unit {0})
check_guards r s = do
  ensure (version_expected r s) (store StoreCode.state_version_mismatch)
  ensure (fence_expected r s) (store StoreCode.stale_fence)
  ensure (job_expected r s) (store StoreCode.state_invalid)
  ensure (binding_expected r s) (store StoreCode.state_invalid)
  ensure (generation_expected r s) (store StoreCode.stale_fence)
  ensure (attempt_expected r s) (store StoreCode.stale_fence)
  ensure (phase_expected r s) (store StoreCode.state_invalid)

abbrev fence_or : Option ℕ → ℕ → ℕ
fence_or none fallback = fallback
fence_or (some f) fallback = f

unfoldable pub mutation_context : Request → ProjectState → Context
mutation_context r s = record {
  fence =
      if r.advance_fence
      then s.project_fence + 1
      else fence_or (run_fence (active_run s r.expected_job_id)) (s.project_fence + 1);
  next_state_version = s.state_version + 1;
}

abbrev pub fence_run : Dict RunRecord → String → ℕ → Option RunRecord → Dict RunRecord
fence_run runs job_id fence none = runs
fence_run runs job_id fence (some run) = put runs job_id (record run { fence = fence })

abbrev pub fenced_runs : Request → ℕ → Dict RunRecord → Option String → Dict RunRecord
fenced_runs r fence runs none = runs
fenced_runs r fence runs (some job_id) =
    if r.advance_fence then fence_run runs job_id fence (get runs job_id) else runs

-- The state that is written for a draft.
unfoldable pub committed_state :
    (Json → String) → Request → ProjectState → Draft → String → ProjectState
committed_state canonical_hash r s draft updated_at = record draft.next_state {
  runs = fenced_runs r (mutation_context r s).fence draft.next_state.runs r.expected_job_id;
  project_fence = s.project_fence + 1;
  state_version = s.state_version + 1;
  processed_requests =
      put s.processed_requests r.request_id
        (record { request_hash = canonical_hash r.payload; response = draft.response });
  updated_at = updated_at;
}

abbrev pub replay_outcome : ProjectState → Json → Outcome
replay_outcome s response = record {
  response = response;
  state = s;
  replayed = true;
  effect_started = false;
}

abbrev pub fresh_outcome : ProjectState → Json → Bool → Outcome
fresh_outcome s response started = record {
  response = response;
  state = s;
  replayed = false;
  effect_started = started;
}

-- `projectStateSchema.parse`, then `lease.writeState`.
unfoldable pub write_draft : Env → Handle → ProjectState → Database → Result ProjectState × Database
write_draft env handle next db =
    if refine_state next then write_state env handle next db else (err schema, db)

abbrev pub is_current_epoch : ReplayPolicy → Bool
is_current_epoch canonical = false
is_current_epoch current_epoch = true

abbrev pub replay_or : Failure → ProjectState → Option Json → Result Outcome
replay_or e s none = err e
replay_or e s (some response) = ok (replay_outcome s response)

-- A refused write: another call may have answered the same request in the meantime.
unfoldable pub recover_write : (Json → String) → Request → Failure → Database → Result Outcome
recover_write canonical_hash r e db =
    if has_code StoreCode.state_version_mismatch e && not (is_current_epoch r.replay_policy)
    then (do
      latest ← read_state db
      replay ← canonical_replay latest r.request_id (canonical_hash r.payload)
      replay_or e latest replay)
    else err e

abbrev pub owned_outcome :
    ProjectState → Json → Result (Unit {0}) × Handle × Database → Result Outcome × Database
owned_outcome s response (ok _, handle, db) = (ok (fresh_outcome s response true), db)
owned_outcome s response (err e, handle, db) = (err e, db)

abbrev pub hand_over :
    Session
    → Handle
    → ProjectState
    → Json
    → Database
    → Result (Unit {0})
    → Result Outcome × Database
hand_over session handle committed response db (err e) = (err e, db)
hand_over session handle committed response db (ok _) =
    owned_outcome committed response (assert_owned session.assert_env handle db)

-- The committed change, and the hand-over to its effect.
unfoldable pub start_effect :
    Session → Option Prepare → Handle → ProjectState → Json → Database → Result Outcome × Database
start_effect session none handle committed response db =
    (ok (fresh_outcome committed response false), db)
start_effect session (some prepare) handle committed response db =
    hand_over session handle committed response (run session.during_prepare db)
      (prepare committed response)
