-- ===== src/Examples/Coordination.antt =====
-- The record of a publication: its application, and the lease that excludes another.
use ai_smart_flow.Shared.{◌≡◌, ◌⊎◌, refl, ℕ, Bool, false, String, none, some, [], ◌∷◌}
use ai_smart_flow.Errors.{Result, ok}
use ai_smart_flow.Protocol.Json.{Json}
use ai_smart_flow.Protocol.Phase.{RunPhase}
use ai_smart_flow.Protocol.Records.{PublishResult}
use ai_smart_flow.State.Records.{ProjectState, PublishAttempt, AttemptStatus}
use ai_smart_flow.Store.Database.{Database}
use ai_smart_flow.Store.Handle.{new_handle}
use ai_smart_flow.Coordinator.Builds.{
  Identity, identity_matches, next_state, acquire_build, release_build, prepare_build, submit_build,
  recovery_build, complete_build,
}
use ai_smart_flow.Coordinator.Attempts.{
  get_attempt, acquire_lease, give_back_lease, prepare_attempt, mark_submitted_and_apply,
  begin_recovery, complete_attempt,
}
use ai_smart_flow.Coordinator.Submitted.{NotApplied, IsApplication, mark_submitted-applies}
use ai_smart_flow.Coordinator.Leases.{acquire_lease-excludes}
use ai_smart_flow.Examples.Samples.{run_in, state_in, lease_of, stored}
use ai_smart_flow.Examples.Mutations.{digest, session}
use ai_smart_flow.Examples.Cancels.{cancellations}

unfoldable pub coordination : Unit {0}
unfolding cancellations identity_matches next_state acquire_build release_build prepare_build
    submit_build recovery_build complete_build get_attempt acquire_lease give_back_lease
    prepare_attempt mark_submitted_and_apply begin_recovery complete_attempt
coordination = tt

abbrev prepared : PublishAttempt
prepared = record {
  operation_id = "op";
  operations_hash = "h";
  adapter_id = "fs";
  status = AttemptStatus.prepared;
  result = none;
}

abbrev publishing : ProjectState
publishing = record (state_in RunPhase.publishing 3) {
  runs = ("job", record (run_in RunPhase.publishing) { publish = some prepared }) ∷ [];
}

abbrev before : Database
before = stored publishing (some (lease_of "t" 500))

abbrev identity : Identity
identity = record { fence = 4; generation = some 0; attempt_id = some "a0" }

abbrev decimal : ℕ → String
decimal n = "6"

abbrev attempt_text : PublishAttempt → Json
attempt_text a = Json.null

abbrev result_text : PublishResult → Json
result_text r = Json.null

abbrev boundary : ProjectState → Result (Unit {0})
boundary s = ok tt

mark_submitted-applies_example :
    NotApplied String digest decimal attempt_text result_text session
      (new_handle "t")
      []
      "t3"
      "job"
      identity
      "op"
      boundary
      publishing
      before
    ⊎ IsApplication String digest decimal attempt_text result_text session
        (new_handle "t")
        []
        "t3"
        "job"
        identity
        "op"
        boundary
        publishing
        before
mark_submitted-applies_example =
    mark_submitted-applies String digest decimal attempt_text result_text session (new_handle "t")
      [] "t3" "job" identity "op" boundary publishing before (unfold coordination in refl)
      (unfold coordination in refl) (λ d. unfold coordination in refl)

-- The application does start here.
application_test :
    (mark_submitted_and_apply digest decimal attempt_text result_text session
      (new_handle "t")
      []
      "t3"
      "job"
      identity
      {A = String}
      "op"
      (λ db. (ok "applied", db))
      (some boundary)
      before).0
    ≡ ok "applied"
unfolding coordination
application_test = refl

abbrev first_answer : Result Bool × Database
first_answer =
    acquire_lease digest decimal attempt_text result_text session (new_handle "t") [] "t3" "job"
      identity "op" before

acquire_lease-excludes_example :
    acquire_lease digest decimal attempt_text result_text session
      (new_handle "t")
      []
      "t5"
      "job2"
      identity
      "op2"
      first_answer.1
    ≡ (ok false, first_answer.1)
acquire_lease-excludes_example =
    acquire_lease-excludes digest decimal attempt_text result_text session session (new_handle "t")
      (new_handle "t") [] [] "t3" "t5" "job" "job2" identity identity "op" "op2" publishing
      publishing before first_answer.1 first_answer.1 (unfold coordination in refl) refl
      (unfold coordination in refl) (unfold coordination in refl) (unfold coordination in refl)
      (λ d. unfold coordination in refl) (unfold coordination in refl) refl refl
