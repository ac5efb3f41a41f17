-- ===== src/Recovery/Completed.antt =====
-- apps/daemon/src/recovery/recovery-manager.ts: a recovery that finds the publication committed.
use ai_smart_flow.Shared.{
  ◌≡◌, refl, ap, ◌∙◌, ℕ, Bool, true, false, String, List, Option, none, some, ◌&&◌, ◌==◌, text_eq,
  nat_eq, get, get-drop_key, distinct_keys, arith, beq_self, &&-left, &&-intro,
}
use ai_smart_flow.Errors.{Result, ok}
use ai_smart_flow.Protocol.Json.{Json, Fields}
use ai_smart_flow.Protocol.Phase.{RunPhase, phase_eq, is_terminal}
use ai_smart_flow.Protocol.Records.{PublishResult}
use ai_smart_flow.Protocol.Refine.{publish_committed, refine_publish_result}
use ai_smart_flow.State.Records.{RunRecord, ProjectState, PublishAttempt, AttemptStatus}
use ai_smart_flow.State.Refine.{refine_publish, refine_run, refine_state, refine_publish_attempt}
use ai_smart_flow.State.Update.{lease_held_by}
use ai_smart_flow.Store.Database.{StateRow, LeaseRow, Database, Env, row_of, read_state}
use ai_smart_flow.Store.Handle.{new_handle}
use ai_smart_flow.Store.Schedule.{Operation}
use ai_smart_flow.Mutation.Executor.{Session, committed_state}
use ai_smart_flow.Mutation.Bound.{valid_run}
use ai_smart_flow.Cancel.Manager.{object_of, with_run}
use ai_smart_flow.Recovery.Changes.{
  publish_reconciled, PublishRecoveryObservation, ObservedStatus, RecoveryRuntime, RecoveryResult,
  completed_change, result_bound, held_for, recovery_result,
}
use ai_smart_flow.Recovery.Manager.{recover_publish, recover_phase, recover}
use ai_smart_flow.Recovery.Commit.{
  release_lease-runs, release_lease-bindings, release_lease-free, moved_state, moved_draft,
  stored_state, ended-refine, IsTurn, renewed, commit_in_turn,
}
use ai_smart_flow.Recovery.Paused.{IsMoved, moved_here, moved_there}

-- The run after a publication that was committed.
abbrev pub completed_run : RunRecord → PublishAttempt → PublishResult → RunRecord
completed_run current publish r = record current {
  phase = RunPhase.completed;
  publish = some (record publish { status = AttemptStatus.committed; result = some r });
}

rotated : (a b c d : Bool) → (a && b && c && d) ≡ true → (b && c && d && a) ≡ true
rotated a b c d h = ground arith

-- The schema accepts a committed attempt with the result that is bound to it.
committed_attempt-refine :
    (publish : PublishAttempt) (r : PublishResult)
    → result_bound publish (publish_committed r.status) r ≡ true
    → refine_publish_attempt (record publish { status = AttemptStatus.committed; result = some r })
      ≡ true
unfolding refine_publish_attempt
committed_attempt-refine publish r bound =
    rotated (refine_publish_result r) (r.operation_id == publish.operation_id)
      (r.operations_hash == publish.operations_hash) (publish_committed r.status) bound

module _ (canonical_hash : Json → String) (decimal : ℕ → String) (digest : String → String)
    (observation_json : PublishRecoveryObservation → Json) (session : Session)
    (meanwhile : List (Env × Operation)) (runtime : RecoveryRuntime)
    (cleanup : RunRecord → Result (Unit {0})) (ended_at now : String) (s : ProjectState)
    (current : RunRecord) (lease : LeaseRow) (row : StateRow) (db : Database)
    (found : get s.runs current.job_id ≡ some current) (going : is_terminal current.phase ≡ false)
    (valid : refine_state s ≡ true) (keys : distinct_keys s.runs ≡ true) where
  abbrev Turn : String → Fields → Type 0
  Turn =
      IsTurn canonical_hash decimal digest observation_json session meanwhile runtime cleanup
        ended_at now s current lease row db

  abbrev renewed_lease : LeaseRow
  renewed_lease =
      renewed canonical_hash decimal digest observation_json session meanwhile runtime cleanup
        ended_at now s current lease row db

  run_accepted : refine_run current ≡ true
  run_accepted = &&-left _ _ (valid_run s current.job_id current found going valid)

  -- The publication that was observed is the one of the run, and it was committed.
  pub record IsObserved (publish : PublishAttempt) (r : PublishResult) : Type 0 where
    pub attempt : current.publish ≡ some publish
    pub status :
        (runtime.reconcile_publish publish.operation_id publish.operations_hash).status
        ≡ ObservedStatus.committed
    pub answer :
        (runtime.reconcile_publish publish.operation_id publish.operations_hash).result ≡ some r
    pub bound : result_bound publish (publish_committed r.status) r ≡ true

  completes :
      (publish : PublishAttempt) (r : PublishResult)
      → current.publish ≡ some publish
      → completed_change publish r current ≡ ok (completed_run current publish r)
  unfolding completed_change
  completes publish r attempt =
      simp (attempt, beq_self publish.operation_id, beq_self publish.operations_hash)

  completed-refine :
      (publish : PublishAttempt) (r : PublishResult)
      → result_bound publish (publish_committed r.status) r ≡ true
      → refine_run (completed_run current publish r) ≡ true
  unfolding refine_run
  completed-refine publish r bound =
      &&-intro (&&-left _ (refine_publish current.publish) run_accepted)
        (committed_attempt-refine publish r bound)

  -- A run that was PUBLISHING is completed in its turn by a recovery that observes its publication
  -- COMMITTED, with a valid result for its operation and operations. If its artifacts are intact, it
  -- holds no lease but that of the operation, the state is valid, the clean-up succeeds, and the write
  -- comes under a live lease, unanswered and while no other process changes the database, then the
  -- recovery succeeds. In the stored state the run is COMPLETED with that result, its task is no
  -- longer bound, it holds no publish lease, and every other run is as before.
  pub recover_completed :
      (verify : RunRecord → Option String) (publish : PublishAttempt) (r : PublishResult)
      → read_state db ≡ ok s
      → verify current ≡ none
      → current.phase ≡ RunPhase.publishing
      → IsObserved publish r
      → (held_for (some publish.operation_id) s.publish_lease current.job_id ≡ false
          → lease_held_by s.publish_lease current.job_id ≡ false)
      → ((run : RunRecord) → cleanup run ≡ ok tt)
      → Turn "publish:committed" (
          object_of "observed" (
            observation_json
              (runtime.reconcile_publish publish.operation_id publish.operations_hash)))
      → (result : RecoveryResult) × (after : Database) × (t : ProjectState) × (recover
            canonical_hash decimal digest observation_json session
            (new_handle lease.owner_token)
            meanwhile
            runtime
            cleanup
            ended_at
            now
            verify
            current.job_id
            db
          ≡ (ok result, after))
        × (result.phase ≡ RunPhase.completed)
        × (after.state_row ≡ some (row_of t))
        × (get t.active_runs_by_task_path current.canonical_task_path ≡ none)
        × (lease_held_by t.publish_lease current.job_id ≡ false)
        × IsMoved s current (record (completed_run current publish r) { updated_at = now }) t
  unfolding recover recover_phase recover_publish committed_state
  recover_completed verify publish r readable intact publishing observed only_lease cleans turn =
      let changed = completed_run current publish r in
      let next = moved_state s current changed true (some publish.operation_id) now in
      let payload = object_of "observed" (
        observation_json
          (runtime.reconcile_publish publish.operation_id publish.operations_hash)) in
      let committed =
        commit_in_turn canonical_hash decimal digest observation_json session meanwhile runtime
          cleanup ended_at now s current lease row db "publish:committed" payload
          (completed_change publish r) true (some publish.operation_id) changed turn found going
          valid (completes publish r observed.attempt)
          (ended-refine s current changed found going valid keys
            (completed-refine publish r observed.bound) refl refl now publish.operation_id _ refl
            refl only_lease) in
      let t =
        stored_state canonical_hash decimal digest observation_json session meanwhile runtime
          cleanup ended_at now s current lease row db "publish:committed" payload
          (moved_draft next "publish:committed") in
      let stamped = record changed { updated_at = now } in
      let moved = with_run s current.job_id current (λ r. changed) true now in
      let release = some publish.operation_id in
      let runs = release_lease-runs moved current.job_id release in
      let here = ap (λ rs. get rs current.job_id) runs ∙ moved_here s.runs current.job_id stamped in
      (
        recovery_result t stamped publish_reconciled none,
        record { state_row = some (row_of t); lease = some renewed_lease },
        t,
        simp (
          readable,
          found,
          intact,
          publishing,
          observed.attempt,
          observed.status,
          observed.answer,
          observed.bound,
          committed,
          here,
          cleans stamped,
        ),
        refl,
        refl,
        ap (λ active. get active current.canonical_task_path)
              (release_lease-bindings moved current.job_id release)
            ∙ get-drop_key s.active_runs_by_task_path current.canonical_task_path
                current.canonical_task_path
            ∙ rw (beq_self current.canonical_task_path) refl,
        release_lease-free moved current.job_id release only_lease,
        record {
          found = here;
          others = λ j other.
              ap (λ rs. get rs j) runs ∙ moved_there s.runs current.job_id stamped j other;
        },
      )
