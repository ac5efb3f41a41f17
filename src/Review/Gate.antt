-- ===== src/Review/Gate.antt =====
-- What the review gate lets through.
use ai_smart_flow.Shared.{
  ℕ, ◌≡◌, ◌≢◌, refl, Bool, true, false, List, [], ◌∷◌, ◌==◌, text_eq, nat_eq, arith, All, every,
  any, inl, inr, Bool-cases, length, not, eq_iff, ◌↔◌, sym, ◌∙◌, leb,
}
use ai_smart_flow.Errors.{Failure, ok, ◌>>◌, ensure}
use ai_smart_flow.Protocol.Records.{TaskReview, ReviewResult, LeaderDecision, ReviewGate}
use ai_smart_flow.Protocol.Refine.{refine_review_gate, refine_review_result}
use ai_smart_flow.Review.Decision.{
  ReviewGateContext, is_complete, is_inconsistent, evaluate_review_gate, assert_leader_decision,
  allowed_decisions, plan_review_decision, decision_of, binding_matches,
}

three_checks {ℓ} :
    {A : Type ℓ} (a b c : Bool) (e1 e2 e3 : Failure) (made result : A)
    → (ensure a e1 >> (ensure b e2 >> (ensure c e3 >> ok made))) ≡ ok result
    → (a ≡ true) × (b ≡ true) × (c ≡ true) × (result ≡ made)
three_checks true true true e1 e2 e3 made result h = (refl, refl, refl, ground arith)
three_checks true true false e1 e2 e3 made result h = cc
three_checks true false c e1 e2 e3 made result h = cc
three_checks false b c e1 e2 e3 made result h = cc

-- What a gate that is passed says of the sessions and the result.
record IsPassed (context : ReviewGateContext) (input : ReviewResult) (gate : ReviewGate)
    : Type 0 where
  pub other_session : context.reviewer_session_id ≢ context.pi_session_id
  pub bound : binding_matches context.reviewer_session_id context.bound_reviewer_session_id ≡ true
  pub consistent : any is_inconsistent input.tasks ≡ false
  pub gate_is : gate ≡ record {
    accepted = every is_complete input.tasks;
    allowed_leader_decisions = allowed_decisions (every is_complete input.tasks);
    result = input;
  }

passed :
    (context : ReviewGateContext) (input : ReviewResult) (gate : ReviewGate)
    → evaluate_review_gate context input ≡ ok gate
    → IsPassed context input gate
unfolding evaluate_review_gate
passed context input gate h =
    let (other, bound, consistent, made) =
      three_checks (not (context.reviewer_session_id == context.pi_session_id))
        (binding_matches context.reviewer_session_id context.bound_reviewer_session_id)
        (not (any is_inconsistent input.tasks)) _ _ _ _ gate h in
    record {
      other_session = ground (arith, eq_iff context.reviewer_session_id context.pi_session_id);
      bound = bound;
      consistent = ground arith;
      gate_is = made;
    }

no_elements {ℓ} : {A : Type ℓ} (xs : List A) → length xs ≡ 0 → xs ≡ []
no_elements [] h = refl
no_elements (x ∷ xs) h = absurd (omega arith)

all_done :
    (tasks : List TaskReview)
    → any is_inconsistent tasks ≡ false
    → every is_complete tasks ≡ true
    → All (λ (t : TaskReview). (t.completion_percentage ≡ 100) × (t.issues ≡ [])) tasks
all_done [] consistent complete = tt
all_done (t ∷ ts) consistent complete =
    ((ground arith, no_elements t.issues (ground arith)), all_done ts (ground arith) (ground arith))

-- A gate that is passed and accepts: the reviewer is neither the worker's session nor another than
-- the bound one, and every task of the result is complete and has no issue.
pub gate_accepted :
    (context : ReviewGateContext) (input : ReviewResult) (gate : ReviewGate)
    → evaluate_review_gate context input ≡ ok gate
    → gate.accepted ≡ true
    → (context.reviewer_session_id ≢ context.pi_session_id)
      × (binding_matches context.reviewer_session_id context.bound_reviewer_session_id ≡ true)
      × All (λ (t : TaskReview). (t.completion_percentage ≡ 100) × (t.issues ≡ [])) input.tasks
gate_accepted context input gate h accepted =
    let p = passed context input gate h in
    let complete = sym (λ i. (p.gate_is i).accepted) ∙ accepted in
    (p.other_session, p.bound, all_done input.tasks p.consistent complete)

-- Whatever the daemon decides by itself on a result, the gate of that result allows, and it allows no
-- acceptance where the daemon would not accept.
pub plan_allowed :
    (context : ReviewGateContext) (input : ReviewResult) (gate : ReviewGate) (repair_rounds : ℕ)
    → evaluate_review_gate context input ≡ ok gate
    → (assert_leader_decision gate (decision_of (plan_review_decision input repair_rounds)) ≡ ok tt)
      × ((assert_leader_decision gate LeaderDecision.accept ≡ ok tt)
          ↔ (decision_of (plan_review_decision input repair_rounds) ≡ LeaderDecision.accept))
unfolding assert_leader_decision plan_review_decision
plan_allowed context input gate repair_rounds h =
    rw (passed context input gate h).gate_is (elim (Bool-cases (every is_complete input.tasks)) [
      | inl done ↦ simp done (refl, ((λ k. refl), λ k. refl))
      | inr not_yet ↦ simp not_yet (elim (Bool-cases (leb 15 repair_rounds)) [
        | inl many ↦ simp many (refl, ((λ k. cc), λ k. cc))
        | inr few ↦ simp few (refl, ((λ k. cc), λ k. cc))
      ])
    ])

-- The gate's answer on a result that the schema accepts is one that the schema of the stored gate
-- accepts.
pub gate-refine :
    (context : ReviewGateContext) (input : ReviewResult) (gate : ReviewGate)
    → evaluate_review_gate context input ≡ ok gate
    → refine_review_result input ≡ true
    → refine_review_gate gate ≡ true
unfolding refine_review_gate
gate-refine context input gate h valid = rw (passed context input gate h).gate_is (
    rw valid (elim (Bool-cases (every is_complete input.tasks)) [
      | inl done ↦ simp done refl
      | inr not_yet ↦ simp not_yet refl
    ]))
