-- ===== src/State/Records.antt =====
-- packages/state-store/src/schema.ts: the persisted Run and Project records.
use ai_smart_flow.Shared.{ℕ, String, List, Option, Dict}
use ai_smart_flow.Protocol.Json.{Fields}
use ai_smart_flow.Protocol.Phase.{RunPhase}
use ai_smart_flow.Protocol.Records.{
  ArtifactRef, StructuredError, Receipt, WorkerAttempt, PublishResult,
}

pub record GitCurrentWorkspace : Type 0 where
  pub index_path : String
  pub workspace_path : String
  pub input_snapshot : ArtifactRef
  pub result_snapshot : Option ArtifactRef
  pub candidate : Option ArtifactRef

pub record GitRunWorkspace : Type 0 where
  pub repository_id : String
  pub inclusion_policy_hash : String
  pub object_directory : String
  pub run_baseline_snapshot : ArtifactRef
  pub current : GitCurrentWorkspace

pub data AttemptStatus : Type 0 where
  prepared submitted committed conflict unknown : AttemptStatus

-- `publishAttemptSchema`, which is `PublishAttemptRecord` of packages/publish too.
pub record PublishAttempt : Type 0 where
  pub operation_id : String
  pub operations_hash : String
  pub adapter_id : String
  pub status : AttemptStatus
  pub result : Option PublishResult

pub data HostTurn : Type 0 where
  awaiting_review : String → String → String → String → HostTurn
  awaiting_user_input : String → String → String → String → HostTurn

pub data ReviewAdapterId : Type 0 where
  codex codex_desktop claude_code claude_code_desktop : ReviewAdapterId

pub record Pause : Type 0 where
  pub code : String
  pub resume_actions : List String

pub record RunRecord : Type 0 where
  pub job_id : String
  pub canonical_task_path : String
  pub fence : ℕ
  pub phase : RunPhase
  pub task_manifest : ArtifactRef
  pub task_source : ArtifactRef
  pub review_adapter_id : ReviewAdapterId
  pub approved_tasks : Option Fields
  pub baseline : Option ArtifactRef
  pub git_workspace : Option GitRunWorkspace
  pub workspace : Option String
  pub worker_attempts : List WorkerAttempt
  pub candidate : Option ArtifactRef
  pub pending_action : Option Fields
  pub host_turn : Option HostTurn
  pub review : Option ArtifactRef
  pub leader_decision : Option ArtifactRef
  pub review_history : Option (List Fields)
  pub no_progress_count : ℕ
  pub auto_repair_rounds : Option ℕ
  pub publish : Option PublishAttempt
  pub cancellation : Option Fields
  pub recovery : Option Fields
  pub pause : Option Pause
  pub last_error : Option StructuredError
  pub created_at : String
  pub updated_at : String

pub record PublishLease : Type 0 where
  pub job_id : String
  pub operation_id : String
  pub acquired_at : String

pub record ProjectState : Type 0 where
  pub project_id : String
  pub canonical_project_root : String
  pub state_version : ℕ
  pub project_fence : ℕ
  pub active_runs_by_task_path : Dict String
  pub publish_lease : Option PublishLease
  pub runs : Dict RunRecord
  pub processed_requests : Dict Receipt
  pub updated_at : String
