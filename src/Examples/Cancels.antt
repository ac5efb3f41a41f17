-- ===== src/Examples/Cancels.antt =====
-- A cancellation that goes through, one that is blocked, and one that is blocked for the second time.
use ai_smart_flow.Shared.{inl, ◌≡◌, refl, Bool, true, false, String, some, [], ◌∷◌, arith, drop_key}
use ai_smart_flow.Errors.{Result, ok, err}
use ai_smart_flow.Protocol.Json.{field_get, field_put}
use ai_smart_flow.Protocol.Phase.{RunPhase}
use ai_smart_flow.State.Records.{RunRecord, ProjectState}
use ai_smart_flow.Store.Database.{Database, row_of, read_state}
use ai_smart_flow.Store.Handle.{new_handle}
use ai_smart_flow.State.Unique.{going_unique}
use ai_smart_flow.Cancel.Manager.{
  CancellationRuntime, CancellationResult, action_id, next_state_with_run, cancel_active_attempt,
  blocked_reasons, canceled_run, blocked_build, canceled_build, blocked_request, canceled_request,
  reconcile,
}
use ai_smart_flow.Cancel.Accepted.{IsCanceled, reconcile_in_turn}
use ai_smart_flow.Cancel.Blocked.{IsBlocked, reconcile-IsBlocked}
use ai_smart_flow.Examples.Samples.{attempt, run_in, state_in, lease_of, stored}
use ai_smart_flow.Examples.Mutations.{mutations, digest, session}

unfoldable pub cancellations : Unit {0}
unfolding mutations drop_key field_get field_put action_id next_state_with_run cancel_active_attempt
    blocked_reasons canceled_run blocked_build canceled_build blocked_request canceled_request
    reconcile
cancellations = tt

abbrev canceling : ProjectState
canceling = state_in RunPhase.canceling 3

abbrev canceling_run : RunRecord
canceling_run = run_in RunPhase.canceling

abbrev before : Database
before = stored canceling (some (lease_of "t" 500))

abbrev runtime : Bool → CancellationRuntime
runtime stopped = record { stop_worker = λ attempt. stopped; revoke_action = λ action. true }

abbrev cleanup : RunRecord → Result (Unit {0})
cleanup run = ok tt

reconcile_in_turn_example :
    (result : CancellationResult) × (after : Database) × (t : ProjectState) × (reconcile digest
        session
        (runtime true)
        cleanup
        "t3"
        "t4"
        (new_handle "t")
        []
        "job"
        before
      ≡ (ok result, after))
    × (result.phase ≡ RunPhase.canceled)
    × (after.state_row ≡ some (row_of t))
    × IsCanceled canceling "job" canceling_run t
reconcile_in_turn_example =
    reconcile_in_turn digest canceling "job" "t3" "t4" canceling_run (unfold cancellations in refl)
      refl (unfold cancellations in refl) session (runtime true) cleanup [] (lease_of "t" 500)
      (row_of canceling) before canceling (unfold cancellations in refl)
      (unfold cancellations in refl) (unfold cancellations in refl) (unfold cancellations in refl)
      (unfold cancellations in refl) (unfold cancellations in refl) (unfold cancellations in refl)
      refl (unfold cancellations in refl) (inl (refl, refl, inl (omega arith))) refl refl
      (λ r. refl)

reconcile-IsBlocked_example :
    (result : CancellationResult) × (after : Database) × (t : ProjectState) × (reconcile digest
        session
        (runtime false)
        cleanup
        "t3"
        "t4"
        (new_handle "t")
        []
        "job"
        before
      ≡ (ok result, after))
    × (result.phase ≡ RunPhase.paused)
    × (result.blocked_reasons ≡ "WORKER_STOP_UNCONFIRMED" ∷ [])
    × (after.state_row ≡ some (row_of t))
    × IsBlocked canceling "job" ("WORKER_STOP_UNCONFIRMED" ∷ []) canceling_run t
reconcile-IsBlocked_example =
    reconcile-IsBlocked digest canceling "job" "t3" "t4" canceling_run "WORKER_STOP_UNCONFIRMED" []
      (unfold cancellations in refl) refl (unfold cancellations in refl) session (runtime false)
      cleanup [] (lease_of "t" 500) (row_of canceling) before canceling
      (unfold cancellations in refl) (unfold cancellations in refl) (unfold cancellations in refl)
      (unfold cancellations in refl) (unfold cancellations in refl) (unfold cancellations in refl)
      (unfold cancellations in refl) refl (unfold cancellations in refl)
      (inl (refl, refl, inl (omega arith))) refl

abbrev state_or : ProjectState → Result ProjectState → ProjectState
state_or fallback (ok s) = s
state_or fallback (err e) = fallback

-- What the blocked cancellation leaves.
abbrev left : Database
left =
    (reconcile digest session (runtime false) cleanup "t3" "t4" (new_handle "t") [] "job" before).1

abbrev left_state : ProjectState
left_state = state_or canceling (read_state left)

-- The cancellation is retried when the worker has had another attempt.
abbrev retried_run : RunRecord
retried_run = record canceling_run {
  worker_attempts = attempt ∷ record attempt { attempt_id = "a1"; generation = 1 } ∷ [];
}

abbrev retried : ProjectState
retried = record left_state { runs = ("job", retried_run) ∷ [] }

going_unique_example : ◌≡◌ {A = String} "job" "job"
going_unique_example =
    going_unique canceling "job" "job" canceling_run canceling_run (unfold cancellations in refl)
      (unfold cancellations in refl) (unfold cancellations in refl) refl refl refl
