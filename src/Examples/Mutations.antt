-- ===== src/Examples/Mutations.antt =====
-- A mutation that moves a run to its publication, retried and overtaken.
use ai_smart_flow.Shared.{inl, ◌≡◌, ◌+◌, refl, true, false, String, none, some, [], ◌∷◌, arith, put}
use ai_smart_flow.Errors.{Failure, Result, ok, err}
use ai_smart_flow.Protocol.Json.{Json}
use ai_smart_flow.Protocol.Phase.{RunPhase}
use ai_smart_flow.State.Records.{ProjectState}
use ai_smart_flow.Store.Database.{row_of, Database, read_state}
use ai_smart_flow.Store.Handle.{
  Handle, new_handle, assert_usable, renew, assert_owned, write_state, release,
}
use ai_smart_flow.Mutation.Executor.{
  Request, Outcome, Build, Session, canonical, canonical_replay, check_guards, mutation_context,
  version_expected, fence_expected, job_expected, binding_expected, generation_expected,
  attempt_expected, phase_expected, committed_state, write_draft, recover_write, start_effect,
  replay_outcome, fresh_outcome,
}
use ai_smart_flow.Mutation.Mutate.{apply_change, mutate_body, mutate}
use ai_smart_flow.Mutation.Answers.{Answers, mutate_body-Answers}
use ai_smart_flow.Mutation.Guarantees.{mutate-retry, IsGuarded}
use ai_smart_flow.Mutation.InTurn.{mutate_in_turn}
use ai_smart_flow.Mutation.Fencing.{mutate_stale_fence, mutate_fresh, mutate_overtaken}
use ai_smart_flow.Examples.Samples.{run_in, state_in, process, lease_of, stored}
use ai_smart_flow.Examples.Stores.{stores}

unfoldable pub mutations : Unit {0}
unfolding stores assert_usable renew assert_owned write_state release canonical_replay check_guards
    mutation_context version_expected fence_expected job_expected binding_expected
    generation_expected attempt_expected phase_expected committed_state write_draft recover_write
    start_effect apply_change mutate_body mutate
mutations = tt

abbrev pub digest : Json → String
digest (Json.str text) = text
digest _ = "other"

abbrev pub session : Session
session = record {
  token = "t";
  start = process 10;
  ticks = record { env = process 11; check_now = 12; others = λ db. db } ∷ [];
  during_build = [];
  write_env = process 13;
  updated_at = "t2";
  during_prepare = [];
  assert_env = process 14;
  release_env = process 15;
}

abbrev pub request : Request
request = record {
  request_id = "publish:op:prepared";
  payload = Json.str "payload";
  replay_policy = canonical;
  expected_state_version = none;
  expected_fence = some 4;
  expected_job_id = some "job";
  expected_generation = some 0;
  expected_attempt_id = some (some "a0");
  expected_phases = some (RunPhase.ready_to_publish ∷ []);
  advance_fence = true;
}

abbrev pub begin_publishing : Build
begin_publishing s context = ok (record {
  next_state = record s { runs = put s.runs "job" (run_in RunPhase.publishing) };
  response = Json.str "done";
})

abbrev ready : ProjectState
ready = state_in RunPhase.ready_to_publish 3

abbrev before : Database
before = stored ready (some (lease_of "t" 500))

abbrev handle : Handle
handle = new_handle "t"

abbrev answered : Result Outcome × Database
answered = mutate_body digest session request begin_publishing none handle before

abbrev next_state : ProjectState
next_state = record ready {
  runs = ("job", record (run_in RunPhase.publishing) { fence = 7 }) ∷ [];
  state_version = 4;
  project_fence = 7;
  processed_requests =
      ("publish:op:prepared", record { request_hash = "payload"; response = Json.str "done" }) ∷ [];
  updated_at = "t2";
}

abbrev outcome : Outcome
outcome = record {
  response = Json.str "done";
  state = next_state;
  replayed = false;
  effect_started = false;
}

abbrev after : Database
after = stored next_state (some (lease_of "t" 30013))

answered_test : answered ≡ (ok outcome, after)
unfolding mutations
answered_test = refl

-- The whole call, from a database without a lease: it acquires, commits and releases.
mutate_test :
    mutate digest session request begin_publishing none (stored ready none)
    ≡ (some (ok outcome), stored next_state none)
unfolding mutations
mutate_test = refl

mutate_body-Answers_example : Answers digest session request begin_publishing ready before answered
mutate_body-Answers_example =
    mutate_body-Answers digest session request begin_publishing ready none handle before
      (unfold mutations in refl) (unfold mutations in refl) (λ d. unfold mutations in refl)

mutate_in_turn_example :
    mutate_body digest session request begin_publishing none (new_handle "t") before
    ≡ (ok (fresh_outcome next_state (Json.str "done") false), after)
unfolding mutations
mutate_in_turn_example =
    mutate_in_turn digest session request begin_publishing (lease_of "t" 500) (row_of ready) ready
      (record {
        next_state = record ready { runs = ("job", run_in RunPhase.publishing) ∷ [] };
        response = Json.str "done";
      })
      before refl refl refl refl refl refl refl refl (inl (refl, refl, inl (omega arith))) refl

mutate-retry_example :
    mutate_body digest session request begin_publishing none handle after
    ≡ (ok (replay_outcome next_state (Json.str "done")), after)
mutate-retry_example =
    mutate-retry digest request refl session session begin_publishing begin_publishing none none
      handle handle ready before after after outcome (unfold mutations in refl)
      (unfold mutations in refl) (λ d. unfold mutations in refl) answered_test refl

mutate_stale_fence_example :
    (e : Failure) × (mutate_body digest session
        (record request { expected_fence = some 3 })
        begin_publishing
        none
        handle
        before
      ≡ (err e, before))
mutate_stale_fence_example =
    mutate_stale_fence digest session (record request { expected_fence = some 3 }) begin_publishing
      none handle before ready (unfold mutations in refl) "job" 3 (run_in RunPhase.ready_to_publish)
      refl refl (unfold mutations in refl) (omega arith) (unfold mutations in refl)

mutate_fresh_example :
    IsGuarded request ready "job" 4
    × (outcome.state.state_version ≡ ready.state_version + 1)
    × (outcome.state.project_fence ≡ ready.project_fence + 1)
    × (read_state after ≡ ok outcome.state)
mutate_fresh_example =
    mutate_fresh digest session request begin_publishing none handle before ready
      (unfold mutations in refl) (unfold mutations in refl) (λ d. unfold mutations in refl) outcome
      after answered_test refl "job" 4 refl refl

mutate_overtaken_example :
    (e : Failure) × (mutate_body digest session
        (record request { request_id = "late"; expected_fence = some 4 })
        begin_publishing
        none
        handle
        (record after { lease = none })
      ≡ (err e, record after { lease = none }))
mutate_overtaken_example =
    mutate_overtaken digest session request begin_publishing none handle before ready
      (unfold mutations in refl) (unfold mutations in refl) (λ d. unfold mutations in refl) outcome
      after answered_test refl "job"
      (record {
        next_state = record ready { runs = put ready.runs "job" (run_in RunPhase.publishing) };
        response = Json.str "done";
      })
      (run_in RunPhase.publishing) refl refl refl (unfold mutations in refl) session
      (record request { request_id = "late"; expected_fence = some 4 }) begin_publishing none handle
      (record after { lease = none }) 4 refl refl refl (omega arith) (unfold mutations in refl)
