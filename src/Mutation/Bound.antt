-- ===== src/Mutation/Bound.antt =====
-- apps/daemon/src/runtime/project-mutation-executor.ts: requests that are bound to a run as it was read,
-- to its fence and to its current attempt, as the managers of a run make them.
use ai_smart_flow.Shared.{
  ◌≡◌, refl, ap, ◌∙◌, ℕ, Bool, true, false, String, List, Option, none, some, ◌&&◌, ◌||◌, ◌==◌,
  text_eq, nat_eq, get, opt_eq, last, includes, arith, eq_iff, beq_self, every_entry-get, &&-left,
  &&-right, or-cancel,
}
use ai_smart_flow.Errors.{ok}
use ai_smart_flow.Protocol.Json.{Json}
use ai_smart_flow.Protocol.Phase.{RunPhase, phase_eq, is_terminal}
use ai_smart_flow.Protocol.Records.{WorkerAttempt}
use ai_smart_flow.Protocol.Refine.{is_some}
use ai_smart_flow.State.Records.{RunRecord, ProjectState}
use ai_smart_flow.State.Refine.{refine_run, refine_state}
use ai_smart_flow.Mutation.Executor.{
  Request, ReplayPolicy, version_expected, fence_expected, job_expected, binding_expected,
  generation_expected, attempt_expected, phase_expected, check_guards, expects, attempt_generation,
  attempt_id,
}

abbrev attempt_binding : Option WorkerAttempt → Option (Option String)
attempt_binding none = none
attempt_binding (some a) = some (some a.attempt_id)

-- A request that expects the run as it is, in one of the phases.
abbrev pub bound_request :
    String → Json → ReplayPolicy → Option ℕ → RunRecord → String → List RunPhase → Request
bound_request request_id payload policy version run job_id phases = record {
  request_id = request_id;
  payload = payload;
  replay_policy = policy;
  expected_state_version = version;
  expected_fence = some run.fence;
  expected_job_id = some job_id;
  expected_generation = attempt_generation (last run.worker_attempts);
  expected_attempt_id = attempt_binding (last run.worker_attempts);
  expected_phases = some phases;
  advance_fence = false;
}

or_true : (b : Bool) → (b || true) ≡ true
or_true b = ground arith

same_generation :
    (o : Option WorkerAttempt)
    → expects (attempt_generation o) (λ g. opt_eq (attempt_generation o) (some g)) ≡ true
same_generation none = refl
same_generation (some a) = beq_self a.generation

same_attempt :
    (o : Option WorkerAttempt) → expects (attempt_binding o) (λ a. opt_eq (attempt_id o) a) ≡ true
same_attempt none = refl
same_attempt (some a) = beq_self a.attempt_id

module _ (s : ProjectState) (job_id : String) (current : RunRecord)
    (found : get s.runs job_id ≡ some current) (going : is_terminal current.phase ≡ false)
    (valid : refine_state s ≡ true) where
  pub valid_run : refine_run current && job_id == current.job_id ≡ true
  unfolding refine_state
  valid_run =
      every_entry-get _ s.runs job_id current (&&-left _ _ (&&-left _ _ (&&-left _ _ valid))) found

  bound : opt_eq (get s.active_runs_by_task_path current.canonical_task_path) (some job_id) ≡ true
  unfolding refine_state
  bound =
      let owned =
        or-cancel going
          (every_entry-get _ s.runs job_id current (&&-right _ _ (&&-left _ _ valid)) found) in
      ap (opt_eq (get s.active_runs_by_task_path current.canonical_task_path))
        (ap some ((eq_iff job_id current.job_id).0 (&&-right _ _ valid_run)))
      ∙ owned

  -- Such a request passes the guards on a state that still has the run as it was.
  pub bound-guards :
      (request_id : String) (payload : Json) (policy : ReplayPolicy) (version : Option ℕ)
      (phases : List RunPhase)
      → expects version (λ v. v == s.state_version) ≡ true
      → includes current.phase phases ≡ true
      → check_guards (bound_request request_id payload policy version current job_id phases) s
        ≡ ok tt
  unfolding check_guards version_expected fence_expected job_expected binding_expected
      generation_expected attempt_expected phase_expected
  bound-guards request_id payload policy version phases same_version listed = simp (
    found,
    same_version,
    or_true (is_some (get s.processed_requests request_id)),
    beq_self current.fence,
    bound,
    listed,
    same_generation (last current.worker_attempts),
    same_attempt (last current.worker_attempts),
  )
