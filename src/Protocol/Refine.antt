-- ===== src/Protocol/Refine.antt =====
-- The `superRefine` checks of packages/protocol/src/schema/run-state.ts. Each answers whether the
-- schema adds no issue.
use ai_smart_flow.Shared.{
  Bool, true, false, List, [], ◌∷◌, map, Option, none, some, not, ◌&&◌, ◌==◌, nat_eq, text_eq,
  every, any, distinct, length, leb, if◌then◌else◌,
}
use ai_smart_flow.Protocol.Phase.{is_active, is_running, is_completed}
use ai_smart_flow.Protocol.Records.{
  WorkerAttempt, ReviewIssue, TaskReview, ReviewResult, ReviewGate, LeaderDecision, PathStatus,
  PublishStatus, PathResult, PublishResult,
}

abbrev pub is_some {ℓ} : {A : Type ℓ} → Option A → Bool
is_some none = false
is_some (some a) = true

abbrev pub bool_eq : Bool → Bool → Bool
bool_eq true b = b
bool_eq false b = not b

-- `refinePiWorkerAttempt`, with the refinement of `piWorkerAttemptSchema`.
unfoldable pub refine_attempt : WorkerAttempt → Bool
refine_attempt a =
    not (is_running a.status && not (is_some a.containment_id && is_some a.process_identity))
    && bool_eq (not (is_active a.status)) (is_some a.ended_at)
    && not (is_completed a.status && not (is_some a.pi_session_id))
    && not (is_completed a.status && not (is_some a.session_artifact))

-- The key `${path}\u0000${message}`: two keys are equal exactly when both parts are, if no path
-- holds the separator.
abbrev issue_key_eq : ReviewIssue → ReviewIssue → Bool
issue_key_eq a b = a.path == b.path && a.message == b.message

abbrev issues_distinct : List ReviewIssue → Bool
issues_distinct [] = true
issues_distinct (x ∷ xs) = not (any (issue_key_eq x) xs) && issues_distinct xs

-- `taskReviewSchema`
unfoldable pub refine_task_review : TaskReview → Bool
refine_task_review t =
    leb t.completion_percentage 100
    && bool_eq (t.completion_percentage == 100) (length t.issues == 0)
    && issues_distinct t.issues

-- `reviewResultSchema`
unfoldable pub refine_review_result : ReviewResult → Bool
unfolding refine_task_review
refine_review_result r =
    not (length r.tasks == 0)
    && every refine_task_review r.tasks
    && distinct (map (λ (t : TaskReview). t.id) r.tasks)

abbrev pub decision_eq : LeaderDecision → LeaderDecision → Bool
decision_eq LeaderDecision.accept LeaderDecision.accept = true
decision_eq LeaderDecision.repair LeaderDecision.repair = true
decision_eq LeaderDecision.pause LeaderDecision.pause = true
decision_eq _ _ = false

abbrev decisions_eq : List LeaderDecision → List LeaderDecision → Bool
decisions_eq [] [] = true
decisions_eq (a ∷ as') (b ∷ bs) = decision_eq a b && decisions_eq as' bs
decisions_eq _ _ = false

-- `durableReviewGateSchema`
unfoldable pub refine_review_gate : ReviewGate → Bool
unfolding refine_review_result
refine_review_gate g =
    let accepted = every (λ (t : TaskReview). t.completion_percentage == 100) g.result.tasks in
    let expected =
      if accepted
      then LeaderDecision.accept ∷ LeaderDecision.pause ∷ []
      else LeaderDecision.repair ∷ LeaderDecision.pause ∷ [] in
    refine_review_result g.result
    && decisions_eq g.allowed_leader_decisions expected
    && bool_eq g.accepted accepted

abbrev path_committed : PathStatus → Bool
path_committed PathStatus.committed = true
path_committed _ = false

abbrev path_conflicts : PathStatus → Bool
path_conflicts PathStatus.conflict = true
path_conflicts _ = false

abbrev pub publish_committed : PublishStatus → Bool
publish_committed PublishStatus.committed = true
publish_committed _ = false

abbrev pub publish_conflict : PublishStatus → Bool
publish_conflict PublishStatus.conflict = true
publish_conflict _ = false

-- `publishResultSchema`
unfoldable pub refine_publish_result : PublishResult → Bool
refine_publish_result r =
    distinct (map (λ (p : PathResult). p.path) r.paths)
    && not (
        publish_committed r.status
        && any (λ (p : PathResult). not (path_committed p.status)) r.paths)
    && not (
        publish_conflict r.status
        && not (length r.paths == 0)
        && every (λ (p : PathResult). not (path_conflicts p.status)) r.paths)
