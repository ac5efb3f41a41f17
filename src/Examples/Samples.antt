-- ===== src/Examples/Samples.antt =====
-- Concrete values for the tests: a project with one run that is ready to publish.
use ai_smart_flow.Shared.{
  String, Option, none, some, [], ◌∷◌, true, false, ℕ, ◌==◌, nat_eq, if◌then◌else◌,
}
use ai_smart_flow.Protocol.Phase.{RunPhase, WorkerStatus}
use ai_smart_flow.Protocol.Records.{ArtifactRef, WorkerAttempt}
use ai_smart_flow.State.Records.{RunRecord, ProjectState, codex}
use ai_smart_flow.Store.Database.{Database, Env, LeaseRow, row_of}

abbrev pub ref : String → ArtifactRef
ref name = record { relative_path = name; sha256 = name; size = 1 }

abbrev pub attempt : WorkerAttempt
attempt = record {
  attempt_id = "a0";
  generation = 0;
  provider_runtime_config_hash = "cfg";
  status = WorkerStatus.completed;
  pi_session_id = some "pi";
  containment_id = some "box";
  process_identity = none;
  terminal_reason = none;
  started_at = "t0";
  ended_at = some "t1";
  session_artifact = some (ref "session");
}

abbrev pub run_in : RunPhase → RunRecord
run_in phase = record {
  job_id = "job";
  canonical_task_path = "/p/task.md";
  fence = 4;
  phase = phase;
  task_manifest = ref "manifest";
  task_source = ref "source";
  review_adapter_id = codex;
  approved_tasks = none;
  baseline = some (ref "baseline");
  git_workspace = none;
  workspace = none;
  worker_attempts = attempt ∷ [];
  candidate = some (ref "candidate");
  pending_action = none;
  host_turn = none;
  review = none;
  leader_decision = none;
  review_history = none;
  no_progress_count = 0;
  auto_repair_rounds = none;
  publish = none;
  cancellation = none;
  recovery = none;
  pause = none;
  last_error = none;
  created_at = "t0";
  updated_at = "t1";
}

abbrev pub state_in : RunPhase → ℕ → ProjectState
state_in phase version = record {
  project_id = "project";
  canonical_project_root = "/p";
  state_version = version;
  project_fence = 6;
  active_runs_by_task_path = ("/p/task.md", "job") ∷ [];
  publish_lease = none;
  runs = ("job", run_in phase) ∷ [];
  processed_requests = [];
  updated_at = "t1";
}

-- A process of host `h` with pid 7, to which every pid up to 9 is alive.
abbrev pub process : ℕ → Env
process now = record {
  hostname = "h";
  pid = 7;
  process_exists = λ pid. if pid == 7 then true else pid == 8;
  process_start_token = λ pid. if pid == 7 then some "7:start" else some "8:start";
  now = now;
  busy = false;
}

abbrev pub lease_of : String → ℕ → LeaseRow
lease_of token expires = record {
  owner_token = token;
  owner_pid = 7;
  owner_hostname = "h";
  owner_process_start_token = "7:start";
  expires_at_ms = expires;
}

abbrev pub stored : ProjectState → Option LeaseRow → Database
stored s lease = record { state_row = some (row_of s); lease = lease }
