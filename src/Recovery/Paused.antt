-- ===== src/Recovery/Paused.antt =====
-- apps/daemon/src/recovery/recovery-manager.ts: a recovery that pauses the run in its turn.
use Prim.Native.String.{◌++◌}
use ai_smart_flow.Shared.{
  ◌≡◌, refl, ◌∙◌, ℕ, true, false, String, List, [], ◌∷◌, Option, none, some, ◌==◌, text_eq, nat_eq,
  Dict, get, put, get-put, distinct_keys, beq_self, &&-left,
}
use ai_smart_flow.Errors.{Result, ok}
use ai_smart_flow.Protocol.Json.{Json, Fields}
use ai_smart_flow.Protocol.Phase.{RunPhase, phase_eq, is_terminal}
use ai_smart_flow.State.Records.{RunRecord, ProjectState}
use ai_smart_flow.State.Refine.{refine_run, refine_state}
use ai_smart_flow.Store.Database.{StateRow, LeaseRow, Database, Env, row_of, read_state}
use ai_smart_flow.Store.Handle.{new_handle}
use ai_smart_flow.Store.Schedule.{Operation}
use ai_smart_flow.Mutation.Executor.{Session, committed_state}
use ai_smart_flow.Mutation.Bound.{valid_run}
use ai_smart_flow.Cancel.Manager.{object_of}
use ai_smart_flow.Recovery.Changes.{
  PublishRecoveryObservation, RecoveryRuntime, RecoveryResult, RecoveryAction, code_of,
  paused_change, recovery_result, is_canceling,
}
use ai_smart_flow.Recovery.Manager.{pause, recover}
use ai_smart_flow.Recovery.Commit.{
  moved_state, moved_draft, stored_state, moved-refine, IsTurn, renewed, commit_in_turn,
}

-- The run has moved on in the state, and the other runs are as before.
pub record IsMoved (s : ProjectState) (current changed : RunRecord) (t : ProjectState)
    : Type 0 where
  pub found : get t.runs current.job_id ≡ some changed
  pub others : (j : String) → (current.job_id == j) ≡ false → get t.runs j ≡ get s.runs j

pub moved_here :
    (runs : Dict RunRecord) (job_id : String) (changed : RunRecord)
    → get (put runs job_id changed) job_id ≡ some changed
moved_here runs job_id changed = get-put runs job_id changed job_id ∙ rw (beq_self job_id) refl

pub moved_there :
    (runs : Dict RunRecord) (job_id : String) (changed : RunRecord) (j : String)
    → (job_id == j) ≡ false
    → get (put runs job_id changed) j ≡ get runs j
moved_there runs job_id changed j other = get-put runs job_id changed j ∙ rw other refl

abbrev pub paused_run : String → RunRecord → RunRecord
paused_run reason current = record current {
  phase = RunPhase.paused;
  pause =
      some (record { code = code_of reason; resume_actions = "inspect_recovery" ∷ "cancel" ∷ [] });
  last_error = some (record {
    code = code_of reason;
    stage = "recovery";
    message = reason;
    retryable = true;
    next_actions = "inspect_recovery" ∷ "cancel" ∷ [];
    artifacts = [];
  });
}

module _ (canonical_hash : Json → String) (decimal : ℕ → String) (digest : String → String)
    (observation_json : PublishRecoveryObservation → Json) (session : Session)
    (meanwhile : List (Env × Operation)) (runtime : RecoveryRuntime)
    (cleanup : RunRecord → Result (Unit {0})) (ended_at now : String) (s : ProjectState)
    (current : RunRecord) (lease : LeaseRow) (row : StateRow) (db : Database)
    (found : get s.runs current.job_id ≡ some current) (going : is_terminal current.phase ≡ false)
    (valid : refine_state s ≡ true) (keys : distinct_keys s.runs ≡ true) where
  abbrev Turn : String → Fields → Type 0
  Turn =
      IsTurn canonical_hash decimal digest observation_json session meanwhile runtime cleanup
        ended_at now s current lease row db

  abbrev renewed_lease : LeaseRow
  renewed_lease =
      renewed canonical_hash decimal digest observation_json session meanwhile runtime cleanup
        ended_at now s current lease row db

  run_accepted : refine_run current ≡ true
  run_accepted = &&-left _ _ (valid_run s current.job_id current found going valid)

  paused-refine : (reason : String) → refine_run (paused_run reason current) ≡ true
  unfolding refine_run
  paused-refine reason = run_accepted

  pause_in_turn :
      (reason : String)
      → Turn
          ("pause:" ++ code_of reason ++ ":" ++ digest reason)
          (object_of "reason" (Json.str reason))
      → (result : RecoveryResult) × (after : Database) × (t : ProjectState) × (pause canonical_hash
            decimal digest observation_json session
            (new_handle lease.owner_token)
            meanwhile
            runtime
            cleanup
            ended_at
            now
            s
            current
            reason
            db
          ≡ (ok result, after))
        × (result.phase ≡ RunPhase.paused)
        × (result.action ≡ RecoveryAction.blocked)
        × (after.state_row ≡ some (row_of t))
        × (t.active_runs_by_task_path ≡ s.active_runs_by_task_path)
        × IsMoved s current (record (paused_run reason current) { updated_at = now }) t
  unfolding pause paused_change committed_state
  pause_in_turn reason turn =
      let transition = "pause:" ++ code_of reason ++ ":" ++ digest reason in
      let next = moved_state s current (paused_run reason current) false none now in
      let committed =
        commit_in_turn canonical_hash decimal digest observation_json session meanwhile runtime
          cleanup ended_at now s current lease row db transition _ (paused_change reason) false none
          (paused_run reason current) turn found going valid refl
          (moved-refine s current (paused_run reason current) found going valid keys
            (paused-refine reason) refl refl now refl) in
      let t =
        stored_state canonical_hash decimal digest observation_json session meanwhile runtime
          cleanup ended_at now s current lease row db transition
          (object_of "reason" (Json.str reason)) (moved_draft next transition) in
      let stamped = record (paused_run reason current) { updated_at = now } in
      let here = moved_here s.runs current.job_id stamped in
      (
        recovery_result t stamped RecoveryAction.blocked (some reason),
        record { state_row = some (row_of t); lease = some (renewed_lease) },
        t,
        simp (committed, here),
        refl,
        refl,
        refl,
        refl,
        record { found = here; others = λ j other. moved_there s.runs current.job_id _ j other },
      )

  -- A run whose artifacts fail the verification is paused in its turn. If the run has not ended and is
  -- not being canceled, the state is valid and the write comes under a live lease, unanswered and
  -- while no other process changes the database, then the recovery succeeds with the action BLOCKED.
  -- In the stored state the run is PAUSED for the failure, whose code is its text before the first
  -- colon, and otherwise as before; so are the bindings and every other run.
  pub recover-IsPaused :
      (verify : RunRecord → Option String) (failure : String)
      → read_state db ≡ ok s
      → verify current ≡ some failure
      → is_canceling current.phase ≡ false
      → Turn
          ("pause:" ++ code_of failure ++ ":" ++ digest failure)
          (object_of "reason" (Json.str failure))
      → (result : RecoveryResult) × (after : Database) × (t : ProjectState) × (recover
            canonical_hash decimal digest observation_json session
            (new_handle lease.owner_token)
            meanwhile
            runtime
            cleanup
            ended_at
            now
            verify
            current.job_id
            db
          ≡ (ok result, after))
        × (result.phase ≡ RunPhase.paused)
        × (result.action ≡ RecoveryAction.blocked)
        × (after.state_row ≡ some (row_of t))
        × (t.active_runs_by_task_path ≡ s.active_runs_by_task_path)
        × IsMoved s current (record (paused_run failure current) { updated_at = now }) t
  unfolding recover
  recover-IsPaused verify failure readable failed other turn =
      let (result, after, t, answer, phase, action, stored, bindings, moved) =
        pause_in_turn failure turn in
      (
        result,
        after,
        t,
        simp (readable, found, failed, going, other, answer),
        phase,
        action,
        stored,
        bindings,
        moved,
      )
