-- ===== src/Examples/Reviews.antt =====
-- A review that is complete and one that is not, and a timer that is stopped.
use ai_smart_flow.Shared.{
  ◌≤◌, List, String, ℕ, ◌≡◌, ◌≢◌, ◌↔◌, refl, ap, Bool, true, false, none, some, [], ◌∷◌, All,
  if◌then◌else◌,
}
use ai_smart_flow.Errors.{ok}
use ai_smart_flow.Protocol.Records.{TaskReview, ReviewResult, ReviewGate, LeaderDecision}
use ai_smart_flow.Protocol.Refine.{refine_review_result, refine_review_gate}
use ai_smart_flow.Review.Decision.{
  ReviewGateContext, evaluate_review_gate, assert_leader_decision, plan_review_decision,
  decision_of, allowed_decisions, binding_matches,
}
use ai_smart_flow.Review.Gate.{gate_accepted, plan_allowed, gate-refine}
use ai_smart_flow.Review.Repair.{
  ManifestTask, RepairRound, assess_repair_scope, assess_repair_progress, stable_problems,
}
use ai_smart_flow.Review.Progress.{
  IsApproved, assess_scope-IsApproved_iff, assess_rounds, assess_rounds-repeated,
}
use ai_smart_flow.Timer.Deadline.{new_timer, stop, history, renewed, fired}
use ai_smart_flow.Timer.Expiry.{IsSound, history-IsSound, stop_final}

abbrev done_task : TaskReview
done_task = record { id = "T001"; completion_percentage = 100; issues = [] }

abbrev open_task : TaskReview
open_task = record {
  id = "T002";
  completion_percentage = 40;
  issues = record { path = "a.ts"; message = "missing"; suggested_fix = none } ∷ [];
}

abbrev accepted_result : ReviewResult
accepted_result = record { tasks = done_task ∷ [] }

abbrev rejected_result : ReviewResult
rejected_result = record { tasks = done_task ∷ open_task ∷ [] }

abbrev context : ReviewGateContext
context = record {
  reviewer_session_id = "reviewer";
  pi_session_id = "pi";
  bound_reviewer_session_id = some "reviewer";
}

abbrev gate_for : ReviewResult → Bool → ReviewGate
gate_for result accepted = record {
  accepted = accepted;
  allowed_leader_decisions = allowed_decisions accepted;
  result = result;
}

gate_accepted_example :
    (context.reviewer_session_id ≢ context.pi_session_id)
    × (binding_matches context.reviewer_session_id context.bound_reviewer_session_id ≡ true)
    × All (λ (t : TaskReview). (t.completion_percentage ≡ 100) × (t.issues ≡ [])) (done_task ∷ [])
gate_accepted_example =
    gate_accepted context accepted_result (gate_for accepted_result true)
      (unfold evaluate_review_gate in refl) refl

plan_allowed_example :
    (assert_leader_decision
        (gate_for rejected_result false)
        (decision_of (plan_review_decision rejected_result 15))
      ≡ ok tt)
    × ((assert_leader_decision (gate_for rejected_result false) LeaderDecision.accept ≡ ok tt)
        ↔ (decision_of (plan_review_decision rejected_result 15) ≡ LeaderDecision.accept))
plan_allowed_example =
    plan_allowed context rejected_result (gate_for rejected_result false) 15
      (unfold evaluate_review_gate in refl)

gate-refine_example : refine_review_gate (gate_for rejected_result false) ≡ true
gate-refine_example =
    gate-refine context rejected_result (gate_for rejected_result false)
      (unfold evaluate_review_gate in refl) (unfold refine_review_result in refl)

abbrev manifest : List ManifestTask
manifest =
    record { id = "T001"; file_paths = "b.ts" ∷ [] }
    ∷ record { id = "T002"; file_paths = "a.ts" ∷ [] }
    ∷ []

assess_scope-IsApproved_iff_example :
    ((assess_repair_scope manifest (done_task ∷ open_task ∷ [])).in_scope ≡ true)
    ↔ All (IsApproved manifest) (done_task ∷ open_task ∷ [])
assess_scope-IsApproved_iff_example =
    assess_scope-IsApproved_iff manifest (done_task ∷ open_task ∷ [])

scope_tests :
    ((assess_repair_scope manifest (done_task ∷ open_task ∷ [])).in_scope ≡ true)
    × ((assess_repair_scope [] (open_task ∷ [])).reasons ≡ "REVIEW_TASK_OUT_OF_SCOPE:T002" ∷ [])
unfolding assess_repair_scope
scope_tests = (refl, refl)

abbrev stuck : RepairRound
stuck = record {
  failure_ids = "f" ∷ [];
  tasks = open_task ∷ [];
  relevant_path_hashes = ("a.ts", "h") ∷ [];
}

abbrev first_problem : List String → Bool
first_problem [] = false
first_problem (p ∷ ps) = true

stuck_problem : stable_problems stuck ≢ []
unfolding stable_problems
stuck_problem e = let wrong : true ≡ false = ap first_problem e in cc

assess_rounds-repeated_example :
    (assess_rounds stuck (stuck ∷ stuck ∷ []) 12 15 ≡ 14)
    × (((assess_repair_progress stuck stuck 14 15).pause_required ≡ true) ↔ (15 ≤ 15))
assess_rounds-repeated_example =
    assess_rounds-repeated stuck (stuck ∷ stuck ∷ []) 12 15 stuck_problem (refl, (refl, tt))

-- A clock that stands at 5.
abbrev five : ℕ → ℕ
five i = 5

history-IsSound_example :
    IsSound (history (renewed five (some 9) ∷ fired ∷ []) (new_timer five (some 7)))
history-IsSound_example = history-IsSound five (some 7) (renewed five (some 9) ∷ fired ∷ [])

stop_final_example :
    let t = stop five (history (renewed five (some 9) ∷ []) (new_timer five (some 7))) in
    (history (fired ∷ []) t.1 ≡ t.1) × (t.1.calls ≡ (if t.0 then 1 else 0))
stop_final_example = stop_final five five (some 7) (renewed five (some 9) ∷ []) (fired ∷ [])
