-- ===== src/Recovery/Restarted.antt =====
-- apps/daemon/src/recovery/recovery-manager.ts: a recovery of a run whose worker has stopped.
use ai_smart_flow.Shared.{
  ◌≡◌, refl, inl, inr, ℕ, true, false, String, List, Option, none, some, ◌&&◌, text_eq, nat_eq, get,
  distinct_keys, beq_self, last, map, Bool-cases, &&-left,
}
use ai_smart_flow.Errors.{Result, ok}
use ai_smart_flow.Protocol.Json.{Json, Fields}
use ai_smart_flow.Protocol.Phase.{RunPhase, phase_eq, is_terminal, is_active}
use ai_smart_flow.Protocol.Records.{WorkerAttempt}
use ai_smart_flow.State.Records.{RunRecord, ProjectState}
use ai_smart_flow.State.Refine.{refine_run, refine_state}
use ai_smart_flow.Store.Database.{StateRow, LeaseRow, Database, Env, row_of, read_state}
use ai_smart_flow.Store.Handle.{new_handle}
use ai_smart_flow.Store.Schedule.{Operation}
use ai_smart_flow.Mutation.Executor.{Session, committed_state}
use ai_smart_flow.Mutation.Bound.{valid_run}
use ai_smart_flow.Cancel.Manager.{object_of}
use ai_smart_flow.Recovery.Changes.{
  PublishRecoveryObservation, RecoveryRuntime, RecoveryResult, RecoveryAction, recovery_result,
  restarted_change, reconciled_attempt, is_attempt, timed_out,
}
use ai_smart_flow.Recovery.Manager.{recover_worker, recover_phase, recover}
use ai_smart_flow.Recovery.Commit.{
  moved_state, moved_draft, stored_state, moved-refine, IsTurn, renewed, commit_in_turn,
}
use ai_smart_flow.State.Attempts.{
  worker_idle, changed_attempts-refine, last-changed, changed_option,
}
use ai_smart_flow.Protocol.Refine.{refine_attempt}
use ai_smart_flow.Recovery.Paused.{IsMoved, moved_here, moved_there}

-- The run with a failed attempt, back at its preparation.
abbrev pub restarted_run : String → RunRecord → RunRecord
restarted_run ended_at current = record current {
  phase = RunPhase.preparing;
  worker_attempts =
      map (reconciled_attempt (last current.worker_attempts) ended_at) current.worker_attempts;
  workspace = none;
  pause = none;
}

current_idle :
    (ended_at : String) (attempt : Option WorkerAttempt)
    → worker_idle (changed_option (reconciled_attempt attempt ended_at) attempt) ≡ true
current_idle ended_at none = refl
current_idle ended_at (some a) = elim (Bool-cases (is_active a.status)) [
  | inl going ↦ rw (beq_self a.attempt_id, going) refl
  | inr idle ↦ rw (beq_self a.attempt_id, idle) (rw idle refl)
]

module _ (attempt : Option WorkerAttempt) (ended_at : String) where
  reconciled-refine :
      (a : WorkerAttempt)
      → refine_attempt a ≡ true
      → refine_attempt (reconciled_attempt attempt ended_at a) ≡ true
  unfolding refine_attempt
  reconciled-refine a h = elim (Bool-cases (is_attempt attempt a && is_active a.status)) [
    | inl same ↦ rw same refl
    | inr other ↦ rw other h
  ]

  reconciled-id :
      (a : WorkerAttempt) → (reconciled_attempt attempt ended_at a).attempt_id ≡ a.attempt_id
  reconciled-id a = elim (Bool-cases (is_attempt attempt a && is_active a.status)) [
    | inl same ↦ rw same refl
    | inr other ↦ rw other refl
  ]

  reconciled-inactive :
      (a : WorkerAttempt)
      → is_active a.status ≡ false
      → is_active (reconciled_attempt attempt ended_at a).status ≡ false
  reconciled-inactive a h = elim (Bool-cases (is_attempt attempt a && is_active a.status)) [
    | inl same ↦ rw same refl
    | inr other ↦ rw other h
  ]

-- The current attempt of a run is not active after a restart.
reconciled-idle :
    (ended_at : String) (attempts : List WorkerAttempt)
    → worker_idle (last (map (reconciled_attempt (last attempts) ended_at) attempts)) ≡ true
reconciled-idle ended_at attempts =
    let attempt = last attempts in
    rw
      (last-changed (reconciled_attempt attempt ended_at) (reconciled-refine attempt ended_at)
        (reconciled-id attempt ended_at) (reconciled-inactive attempt ended_at) attempts)
      (current_idle ended_at attempt)

module _ (canonical_hash : Json → String) (decimal : ℕ → String) (digest : String → String)
    (observation_json : PublishRecoveryObservation → Json) (session : Session)
    (meanwhile : List (Env × Operation)) (runtime : RecoveryRuntime)
    (cleanup : RunRecord → Result (Unit {0})) (ended_at now : String) (s : ProjectState)
    (current : RunRecord) (lease : LeaseRow) (row : StateRow) (db : Database)
    (found : get s.runs current.job_id ≡ some current) (going : is_terminal current.phase ≡ false)
    (valid : refine_state s ≡ true) (keys : distinct_keys s.runs ≡ true) where
  abbrev Turn : String → Fields → Type 0
  Turn =
      IsTurn canonical_hash decimal digest observation_json session meanwhile runtime cleanup
        ended_at now s current lease row db

  abbrev renewed_lease : LeaseRow
  renewed_lease =
      renewed canonical_hash decimal digest observation_json session meanwhile runtime cleanup
        ended_at now s current lease row db

  run_accepted : refine_run current ≡ true
  run_accepted = &&-left _ _ (valid_run s current.job_id current found going valid)

  restarted-refine : refine_run (restarted_run ended_at current) ≡ true
  unfolding refine_run
  restarted-refine =
      let attempt = last current.worker_attempts in
      changed_attempts-refine (reconciled_attempt attempt ended_at)
        (reconciled-refine attempt ended_at) (reconciled-id attempt ended_at)
        (reconciled-inactive attempt ended_at) current run_accepted

  -- A run that was RUNNING goes back to its preparation in its turn, if its worker has stopped
  -- without having timed out. If its artifacts are intact, the state is valid and the write comes under a live
  -- lease, unanswered and while no other process changes the database, then the recovery succeeds
  -- with the action START_NEW_WORKER_ATTEMPT. In the stored state, which the schema accepts, the run
  -- is PREPARING, its last attempt is not active, and every other run is as before.
  pub recover_restarted :
      (verify : RunRecord → Option String)
      → read_state db ≡ ok s
      → verify current ≡ none
      → current.phase ≡ RunPhase.running
      → timed_out (last current.worker_attempts) ≡ false
      → runtime.inspect_worker (last current.worker_attempts) ≡ true
      → Turn "worker:START_NEW_WORKER_ATTEMPT" (object_of "observed" (Json.str "STOPPED"))
      → (result : RecoveryResult) × (after : Database) × (t : ProjectState) × (recover
            canonical_hash decimal digest observation_json session
            (new_handle lease.owner_token)
            meanwhile
            runtime
            cleanup
            ended_at
            now
            verify
            current.job_id
            db
          ≡ (ok result, after))
        × (result.phase ≡ RunPhase.preparing)
        × (result.action ≡ RecoveryAction.start_new_worker_attempt)
        × (after.state_row ≡ some (row_of t))
        × (refine_state t ≡ true)
        × (worker_idle (last (restarted_run ended_at current).worker_attempts) ≡ true)
        × IsMoved s current (record (restarted_run ended_at current) { updated_at = now }) t
  unfolding recover recover_phase recover_worker restarted_change committed_state refine_state
  recover_restarted verify readable intact running in_time stopped turn =
      let attempt = last current.worker_attempts in
      let payload = object_of "observed" (Json.str "STOPPED") in
      let next = moved_state s current (restarted_run ended_at current) false none now in
      let accepted =
        moved-refine s current (restarted_run ended_at current) found going valid keys
          restarted-refine refl refl now refl in
      let committed =
        commit_in_turn canonical_hash decimal digest observation_json session meanwhile runtime
          cleanup ended_at now s current lease row db "worker:START_NEW_WORKER_ATTEMPT" payload
          (restarted_change attempt ended_at) false none (restarted_run ended_at current) turn found
          going valid refl accepted in
      let t =
        stored_state canonical_hash decimal digest observation_json session meanwhile runtime
          cleanup ended_at now s current lease row db "worker:START_NEW_WORKER_ATTEMPT" payload
          (moved_draft next "worker:START_NEW_WORKER_ATTEMPT") in
      let stamped = record (restarted_run ended_at current) { updated_at = now } in
      let here = moved_here s.runs current.job_id stamped in
      (
        recovery_result t stamped RecoveryAction.start_new_worker_attempt none,
        record { state_row = some (row_of t); lease = some renewed_lease },
        t,
        simp (readable, found, intact, running, in_time, stopped, committed, here),
        refl,
        refl,
        refl,
        accepted,
        reconciled-idle ended_at current.worker_attempts,
        record {
          found = here;
          others = λ j other. moved_there s.runs current.job_id stamped j other;
        },
      )
