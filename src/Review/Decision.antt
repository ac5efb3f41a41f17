-- ===== src/Review/Decision.antt =====
-- packages/review/src/review-gate.ts and review-decision.ts: what a review result allows, and what the
-- daemon decides by itself.
use ai_smart_flow.Shared.{
  ℕ, Bool, true, String, List, [], ◌∷◌, Option, none, some, not, ◌==◌, text_eq, nat_eq,
  if◌then◌else◌, length, every, any, leb,
}
use ai_smart_flow.Errors.{thrown, Result, ok, ◌>>◌, ensure}
use ai_smart_flow.Protocol.Records.{TaskReview, ReviewResult, LeaderDecision, ReviewGate}
use ai_smart_flow.Protocol.Refine.{bool_eq, decision_eq}

pub record ReviewGateContext : Type 0 where
  pub reviewer_session_id : String
  pub pi_session_id : String
  pub bound_reviewer_session_id : Option String

abbrev pub is_complete : TaskReview → Bool
is_complete task = task.completion_percentage == 100

abbrev pub is_inconsistent : TaskReview → Bool
is_inconsistent task = not (bool_eq (is_complete task) (length task.issues == 0))

-- No bound session, or this one.
abbrev pub binding_matches : String → Option String → Bool
binding_matches session none = true
binding_matches session (some bound) = session == bound

abbrev pub allowed_decisions : Bool → List LeaderDecision
allowed_decisions accepted =
    if accepted
    then LeaderDecision.accept ∷ LeaderDecision.pause ∷ []
    else LeaderDecision.repair ∷ LeaderDecision.pause ∷ []

unfoldable pub evaluate_review_gate : ReviewGateContext → ReviewResult → Result ReviewGate
evaluate_review_gate context input = do
  ensure (not (context.reviewer_session_id == context.pi_session_id))
      (thrown "REVIEWER_SESSION_MATCHES_WORKER")
  ensure (binding_matches context.reviewer_session_id context.bound_reviewer_session_id)
      (thrown "REVIEWER_SESSION_BINDING_MISMATCH")
  ensure (not (any is_inconsistent input.tasks)) (thrown "REVIEW_RESULT_INCONSISTENT")
  let accepted = every is_complete input.tasks
  ok (record {
    accepted = accepted;
    allowed_leader_decisions = allowed_decisions accepted;
    result = input;
  })

unfoldable pub assert_leader_decision : ReviewGate → LeaderDecision → Result (Unit {0})
assert_leader_decision gate decision =
    ensure (any (decision_eq decision) gate.allowed_leader_decisions)
      (thrown "LEADER_DECISION_REJECTED_BY_REVIEW_GATE")

abbrev pub repair_round_limit : ℕ
repair_round_limit = 15

pub data ReviewDecisionPlan : Type 0 where
  accept_plan repair_plan pause_repair_limit : ReviewDecisionPlan

-- The field `decision` of a plan.
abbrev pub decision_of : ReviewDecisionPlan → LeaderDecision
decision_of accept_plan = LeaderDecision.accept
decision_of repair_plan = LeaderDecision.repair
decision_of pause_repair_limit = LeaderDecision.pause

unfoldable pub plan_review_decision : ReviewResult → ℕ → ReviewDecisionPlan
plan_review_decision result repair_rounds =
    if every is_complete result.tasks
    then accept_plan
    else if leb repair_round_limit repair_rounds
    then pause_repair_limit
    else repair_plan
