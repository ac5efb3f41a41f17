-- ===== src/Protocol/Records.antt =====
-- The shapes of packages/protocol/src/schema/common.ts and run-state.ts. The textual formats of
-- identifiers, digests and dates are left out: such a text is a `String`.
use ai_smart_flow.Shared.{ℕ, Bool, String, List, Option, ◌==◌, nat_eq, text_eq, ◌&&◌}
use ai_smart_flow.Protocol.Json.{Json}
use ai_smart_flow.Protocol.Phase.{WorkerStatus}

pub record ArtifactRef : Type 0 where
  pub relative_path : String
  pub sha256 : String
  pub size : ℕ

abbrev pub artifact_refs_equal : ArtifactRef → ArtifactRef → Bool
artifact_refs_equal left right =
    left.relative_path == right.relative_path
    && left.sha256 == right.sha256
    && left.size == right.size

pub record StructuredError : Type 0 where
  pub code : String
  pub stage : String
  pub message : String
  pub retryable : Bool
  pub next_actions : List String
  pub artifacts : List ArtifactRef

-- `idempotentReceiptSchema`
pub record Receipt : Type 0 where
  pub request_hash : String
  pub response : Json

pub record ProcessIdentity : Type 0 where
  pub pid : ℕ
  pub start_token : String

-- `piWorkerAttemptSchema`
pub record WorkerAttempt : Type 0 where
  pub attempt_id : String
  pub generation : ℕ
  pub provider_runtime_config_hash : String
  pub status : WorkerStatus
  pub pi_session_id : Option String
  pub containment_id : Option String
  pub process_identity : Option ProcessIdentity
  pub terminal_reason : Option String
  pub started_at : String
  pub ended_at : Option String
  pub session_artifact : Option ArtifactRef

pub record ReviewIssue : Type 0 where
  pub path : String
  pub message : String
  pub suggested_fix : Option String

pub record TaskReview : Type 0 where
  pub id : String
  pub completion_percentage : ℕ
  pub issues : List ReviewIssue

pub record ReviewResult : Type 0 where
  pub tasks : List TaskReview

pub data LeaderDecision : Type 0 where
  accept repair pause : LeaderDecision

-- `durableReviewGateSchema`, and `ReviewGateDecision` of packages/review/src/review-gate.ts.
pub record ReviewGate : Type 0 where
  pub accepted : Bool
  pub allowed_leader_decisions : List LeaderDecision
  pub result : ReviewResult

pub data PathStatus : Type 0 where
  committed conflict unresolved : PathStatus

pub data PublishStatus : Type 0 where
  committed conflict partial unknown : PublishStatus

pub record PathResult : Type 0 where
  pub path : String
  pub status : PathStatus
  pub observed_hash : Option String
  pub observed_mode : Option ℕ

pub record PublishResult : Type 0 where
  pub operation_id : String
  pub operations_hash : String
  pub status : PublishStatus
  pub paths : List PathResult
