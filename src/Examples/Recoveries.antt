-- ===== src/Examples/Recoveries.antt =====
-- Recoveries after a restart: missing artifacts, a stopped worker, and a committed publication.
use ai_smart_flow.Shared.{
  inl, ◌≡◌, refl, ℕ, true, false, String, last, none, some, [], ◌∷◌, arith, get,
}
use ai_smart_flow.Errors.{Result, ok}
use ai_smart_flow.Protocol.Json.{Json, Fields}
use ai_smart_flow.Protocol.Phase.{RunPhase, WorkerStatus}
use ai_smart_flow.Protocol.Records.{WorkerAttempt, PublishResult, PublishStatus}
use ai_smart_flow.State.Records.{RunRecord, ProjectState, PublishAttempt, AttemptStatus}
use ai_smart_flow.State.Refine.{refine_state}
use ai_smart_flow.State.Attempts.{worker_idle}
use ai_smart_flow.State.Update.{lease_held_by}
use ai_smart_flow.Store.Database.{Database, row_of}
use ai_smart_flow.Store.Handle.{new_handle}
use ai_smart_flow.Cancel.Manager.{object_of}
use ai_smart_flow.Recovery.Changes.{
  PublishRecoveryObservation, ObservedStatus, RecoveryRuntime, RecoveryResult, RecoveryAction,
  recovered_state, recovery_build, code_of, paused_change, restarted_change, completed_change,
  conflict_change,
}
use ai_smart_flow.Recovery.Manager.{
  commit, pause, recover_worker, recover_publish, recover_cancellation, recover_phase, recover,
}
use ai_smart_flow.Recovery.Commit.{IsTurn}
use ai_smart_flow.Recovery.Paused.{IsMoved, paused_run, recover-IsPaused}
use ai_smart_flow.Recovery.Restarted.{restarted_run, recover_restarted}
use ai_smart_flow.Recovery.Completed.{completed_run, recover_completed}
use ai_smart_flow.Examples.Samples.{attempt, run_in, state_in, lease_of, stored}
use ai_smart_flow.Examples.Mutations.{session}
use ai_smart_flow.Examples.Cancels.{cancellations}

unfoldable pub recoveries : Unit {0}
unfolding cancellations recovered_state recovery_build code_of paused_change restarted_change
    completed_change conflict_change commit pause recover_worker recover_publish
    recover_cancellation recover_phase recover
recoveries = tt

abbrev hash : Json → String
hash value = "hash"

abbrev decimal : ℕ → String
decimal n = "3"

abbrev digest : String → String
digest text = "sha"

abbrev result : PublishResult
result = record {
  operation_id = "op";
  operations_hash = "h";
  status = PublishStatus.committed;
  paths = [];
}

abbrev observation : PublishRecoveryObservation
observation = record { status = ObservedStatus.committed; result = some result }

abbrev runtime : RecoveryRuntime
runtime = record {
  inspect_worker = λ a. true;
  reconcile_publish = λ id h. observation;
  continue_cancellation = λ db. (false, db);
}

abbrev observed_json : PublishRecoveryObservation → Json
observed_json o = Json.null

abbrev cleanup : RunRecord → Result (Unit {0})
cleanup run = ok tt

-- The conditions of a commit in its turn on the stored state.
abbrev Turn : ProjectState → RunRecord → String → Fields → Type 0
Turn s run =
    IsTurn hash decimal digest observed_json session [] runtime cleanup "t3" "t4" s run
      (lease_of "t" 500) (row_of s) (stored s (some (lease_of "t" 500)))

abbrev reviewing : ProjectState
reviewing = state_in RunPhase.fixing 3

abbrev pause_turn :
    Turn reviewing
      (run_in RunPhase.fixing)
      "pause:ARTIFACT_MISSING:sha"
      (object_of "reason" (Json.str "ARTIFACT_MISSING:review"))
pause_turn = record {
  here = unfold recoveries in refl;
  parsed = unfold recoveries in refl;
  unanswered = unfold recoveries in refl;
  still = unfold recoveries in refl;
  idle = refl;
  present = unfold recoveries in refl;
  held = inl (refl, refl, inl (omega arith));
}

recover-IsPaused_example :
    (answer : RecoveryResult) × (after : Database) × (t : ProjectState) × (recover hash decimal
        digest observed_json session
        (new_handle "t")
        []
        runtime
        cleanup
        "t3"
        "t4"
        (λ run. some "ARTIFACT_MISSING:review")
        "job"
        (stored reviewing (some (lease_of "t" 500)))
      ≡ (ok answer, after))
    × (answer.phase ≡ RunPhase.paused)
    × (answer.action ≡ RecoveryAction.blocked)
    × (after.state_row ≡ some (row_of t))
    × (t.active_runs_by_task_path ≡ reviewing.active_runs_by_task_path)
    × IsMoved reviewing
        (run_in RunPhase.fixing)
        (record (paused_run "ARTIFACT_MISSING:review" (run_in RunPhase.fixing)) {
          updated_at = "t4";
        })
        t
recover-IsPaused_example =
    recover-IsPaused hash decimal digest observed_json session [] runtime cleanup "t3" "t4"
      reviewing (run_in RunPhase.fixing) (lease_of "t" 500) (row_of reviewing)
      (stored reviewing (some (lease_of "t" 500))) (unfold recoveries in refl) refl
      (unfold recoveries in refl) refl (λ run. some "ARTIFACT_MISSING:review")
      "ARTIFACT_MISSING:review" (unfold recoveries in refl) refl refl
      (unfold recoveries in pause_turn)

abbrev active_attempt : WorkerAttempt
active_attempt = record attempt { status = WorkerStatus.preparing; ended_at = none }

abbrev running_run : RunRecord
running_run = record (run_in RunPhase.running) { worker_attempts = active_attempt ∷ [] }

abbrev running : ProjectState
running = record (state_in RunPhase.running 3) { runs = ("job", running_run) ∷ [] }

abbrev restart_turn :
    Turn running running_run "worker:START_NEW_WORKER_ATTEMPT"
      (object_of "observed" (Json.str "STOPPED"))
restart_turn = record {
  here = unfold recoveries in refl;
  parsed = unfold recoveries in refl;
  unanswered = unfold recoveries in refl;
  still = unfold recoveries in refl;
  idle = refl;
  present = unfold recoveries in refl;
  held = inl (refl, refl, inl (omega arith));
}

recover_restarted_example :
    (answer : RecoveryResult) × (after : Database) × (t : ProjectState) × (recover hash decimal
        digest observed_json session
        (new_handle "t")
        []
        runtime
        cleanup
        "t3"
        "t4"
        (λ run. none)
        "job"
        (stored running (some (lease_of "t" 500)))
      ≡ (ok answer, after))
    × (answer.phase ≡ RunPhase.preparing)
    × (answer.action ≡ RecoveryAction.start_new_worker_attempt)
    × (after.state_row ≡ some (row_of t))
    × (refine_state t ≡ true)
    × (worker_idle (last (restarted_run "t3" running_run).worker_attempts) ≡ true)
    × IsMoved running running_run (record (restarted_run "t3" running_run) { updated_at = "t4" }) t
recover_restarted_example =
    recover_restarted hash decimal digest observed_json session [] runtime cleanup "t3" "t4" running
      running_run (lease_of "t" 500) (row_of running) (stored running (some (lease_of "t" 500)))
      (unfold recoveries in refl) refl (unfold recoveries in refl) refl (λ run. none)
      (unfold recoveries in refl) refl refl refl refl restart_turn

abbrev submitted : PublishAttempt
submitted = record {
  operation_id = "op";
  operations_hash = "h";
  adapter_id = "fs";
  status = AttemptStatus.submitted;
  result = none;
}

abbrev publishing_run : RunRecord
publishing_run = record (run_in RunPhase.publishing) { publish = some submitted }

abbrev publishing : ProjectState
publishing = record (state_in RunPhase.publishing 3) {
  runs = ("job", publishing_run) ∷ [];
  publish_lease = some (record { job_id = "job"; operation_id = "op"; acquired_at = "t1" });
}

abbrev complete_turn :
    Turn publishing publishing_run "publish:committed" (object_of "observed" Json.null)
complete_turn = record {
  here = unfold recoveries in refl;
  parsed = unfold recoveries in refl;
  unanswered = unfold recoveries in refl;
  still = unfold recoveries in refl;
  idle = refl;
  present = unfold recoveries in refl;
  held = inl (refl, refl, inl (omega arith));
}

recover_completed_example :
    (answer : RecoveryResult) × (after : Database) × (t : ProjectState) × (recover hash decimal
        digest observed_json session
        (new_handle "t")
        []
        runtime
        cleanup
        "t3"
        "t4"
        (λ run. none)
        "job"
        (stored publishing (some (lease_of "t" 500)))
      ≡ (ok answer, after))
    × (answer.phase ≡ RunPhase.completed)
    × (after.state_row ≡ some (row_of t))
    × (get t.active_runs_by_task_path "/p/task.md" ≡ none)
    × (lease_held_by t.publish_lease "job" ≡ false)
    × IsMoved publishing publishing_run
        (record (completed_run publishing_run submitted result) { updated_at = "t4" })
        t
recover_completed_example =
    recover_completed hash decimal digest observed_json session [] runtime cleanup "t3" "t4"
      publishing publishing_run (lease_of "t" 500) (row_of publishing)
      (stored publishing (some (lease_of "t" 500))) (unfold recoveries in refl) refl
      (unfold recoveries in refl) refl (λ run. none) submitted result (unfold recoveries in refl)
      refl refl
      (record { attempt = refl; status = refl; answer = refl; bound = unfold recoveries in refl })
      (λ h. absurd (ground arith)) (λ run. refl) complete_turn
