-- ===== src/Cancel/Accepted.antt =====
-- apps/daemon/src/cancel/cancel-manager.ts: a cancellation that nothing blocks goes through.
use Prim.Native.String.{◌++◌}
use ai_smart_flow.Shared.{
  ◌≡◌, ◌+◌, refl, ◌∙◌, true, false, String, List, [], none, some, ◌==◌, text_eq, nat_eq, get,
  get-put, get-drop_key, distinct_keys, last, beq_self, &&-right, &&-left,
}
use ai_smart_flow.Errors.{Result, ok}
use ai_smart_flow.Protocol.Json.{Json, Fields}
use ai_smart_flow.Protocol.Phase.{is_terminal, RunPhase, phase_eq}
use ai_smart_flow.State.Records.{RunRecord, ProjectState}
use ai_smart_flow.State.Refine.{refine_run, refine_state}
use ai_smart_flow.State.Update.{lease_held_by, valid_lease, end_run-refine}
use ai_smart_flow.Store.Database.{
  mutation_lease_ttl_ms, StateRow, LeaseRow, Database, Env, row_of, read_state, parse_state_row,
}
use ai_smart_flow.Store.Handle.{new_handle}
use ai_smart_flow.Store.Exclusion.{IsHeld}
use ai_smart_flow.Store.Schedule.{Operation, run}
use ai_smart_flow.Mutation.Executor.{Context, Draft, Session, canonical_replay, committed_state}
use ai_smart_flow.Mutation.InTurn.{mutate_in_turn}
use ai_smart_flow.Cancel.Manager.{
  CancellationRuntime, CancellationResult, canceled_run, canceled_build, canceled_request,
  blocked_reasons, next_state_with_run, with_run, object_of, result_of, reconcile,
}
use ai_smart_flow.Mutation.Bound.{valid_run, bound-guards}
use ai_smart_flow.State.Attempts.{worker_idle}
use ai_smart_flow.Cancel.Attempts.{canceled_run-refine, cancel_active_attempt-idle}

-- The state that a completed cancellation leaves, apart from its versions and receipts.
abbrev pub canceled_state : ProjectState → String → RunRecord → String → String → ProjectState
canceled_state s job_id current ended_at now =
    with_run s job_id current (canceled_run ended_at) true now

-- What a cancellation that has gone through has done.
pub record IsCanceled (s : ProjectState) (job_id : String) (current : RunRecord) (t : ProjectState)
    : Type 0 where
  pub run : RunRecord
  pub found : get t.runs job_id ≡ some run
  pub phase : run.phase ≡ RunPhase.canceled
  pub idle : worker_idle (last run.worker_attempts) ≡ true
  pub no_action : run.pending_action ≡ none
  pub no_pause : run.pause ≡ none
  pub unbound : get t.active_runs_by_task_path current.canonical_task_path ≡ none
  pub others : (j : String) → (job_id == j) ≡ false → get t.runs j ≡ get s.runs j

module _ (canonical_hash : Json → String) (s : ProjectState) (job_id ended_at now : String)
    (current : RunRecord) (found : get s.runs job_id ≡ some current)
    (canceling : current.phase ≡ RunPhase.canceling) (valid : refine_state s ≡ true) where
  going : is_terminal current.phase ≡ false
  going = rw canceling refl

  abbrev canceled_draft : Draft
  canceled_draft = record {
    next_state = canceled_state s job_id current ended_at now;
    response =
        Json.obj
          (Fields.field "phase" (Json.str "CANCELED") (object_of "status" (Json.str "COMPLETED")));
  }

  canceled_build-drafts :
      (context : Context) → canceled_build job_id ended_at now s context ≡ ok canceled_draft
  unfolding canceled_build next_state_with_run
  canceled_build-drafts context = simp found

  -- The schema accepts the state after a cancellation, if no lease is the run's.
  pub canceled-refine :
      distinct_keys s.runs ≡ true
      → lease_held_by s.publish_lease job_id ≡ false
      → refine_state (canceled_state s job_id current ended_at now) ≡ true
  unfolding canceled_run refine_run
  canceled-refine keys free =
      end_run-refine s job_id current (record (canceled_run ended_at current) { updated_at = now })
        found (&&-right _ _ (valid_run s job_id current found going valid)) refl
        (canceled_run-refine ended_at current
          (&&-left _ _ (valid_run s job_id current found going valid)))
        keys valid going refl s.publish_lease (valid_lease s valid) free
        (canceled_state s job_id current ended_at now) refl refl refl

  module _ (session : Session) (runtime : CancellationRuntime)
      (cleanup : RunRecord → Result (Unit {0})) (meanwhile : List (Env × Operation))
      (lease : LeaseRow) (row : StateRow) (db : Database) where
    abbrev done : ProjectState
    done =
        committed_state canonical_hash (canceled_request job_id current) s canceled_draft
          session.updated_at

    done-IsCanceled : IsCanceled s job_id current done
    unfolding committed_state canceled_request canceled_run
    done-IsCanceled = record {
      run = record (canceled_run ended_at current) { updated_at = now };
      found = get-put s.runs job_id _ job_id ∙ rw (beq_self job_id) refl;
      phase = refl;
      idle = cancel_active_attempt-idle current ended_at;
      no_action = refl;
      no_pause = refl;
      unbound =
          get-drop_key s.active_runs_by_task_path current.canonical_task_path
            current.canonical_task_path
          ∙ rw (beq_self current.canonical_task_path) refl;
      others = λ j other. get-put s.runs job_id _ j ∙ rw other refl;
    }

    done-accepted :
        distinct_keys s.runs ≡ true
        → lease_held_by s.publish_lease job_id ≡ false
        → refine_state done ≡ true
    unfolding committed_state canceled_request refine_state
    done-accepted keys free = canceled-refine keys free

    -- A cancellation that nothing blocks goes through in its turn. If the run is CANCELING in the state
    -- read first and the same in the valid state that the mutation reads, the worker is confirmed to
    -- have stopped, a pending action to be revoked and no publication is open, no earlier request
    -- has completed it, the run does not hold the publish lease, the clean-up succeeds, and the write
    -- comes under a live lease while no other process changes the database, then the call succeeds
    -- with the phase CANCELED. In the stored state the run is CANCELED, its current attempt is not
    -- active, it has no pending action and no pause, its task is no longer bound, and every other run
    -- is as before.
    pub reconcile_in_turn :
        (s₀ : ProjectState)
        → read_state db ≡ ok s₀
        → get s₀.runs job_id ≡ some current
        → blocked_reasons runtime current ≡ []
        → (run meanwhile db).state_row ≡ some row
        → parse_state_row row ≡ ok s
        → canonical_replay s
            ("cancel:" ++ job_id ++ ":completed")
            (canonical_hash (canceled_request job_id current).payload)
          ≡ ok none
        → run session.during_build (run meanwhile db) ≡ run meanwhile db
        → session.write_env.busy ≡ false
        → (run meanwhile db).lease ≡ some lease
        → IsHeld session.write_env lease
        → distinct_keys s.runs ≡ true
        → lease_held_by s.publish_lease job_id ≡ false
        → ((r : RunRecord) → cleanup r ≡ ok tt)
        → (result : CancellationResult) × (after : Database) × (t : ProjectState) × (reconcile
              canonical_hash session runtime cleanup ended_at now
              (new_handle lease.owner_token)
              meanwhile
              job_id
              db
            ≡ (ok result, after))
          × (result.phase ≡ RunPhase.canceled)
          × (after.state_row ≡ some (row_of t))
          × IsCanceled s job_id current t
    unfolding reconcile canceled_request
    reconcile_in_turn s₀ readable here free_of here_row parsed fresh still idle present held keys
          free cleans =
        let committed =
          mutate_in_turn canonical_hash session (canceled_request job_id current)
            (canceled_build job_id ended_at now) lease row s canceled_draft (run meanwhile db)
            here_row parsed fresh
            (bound-guards s job_id current found going valid _ _ _ _ _ refl (rw canceling refl))
            (canceled_build-drafts _) still idle present held (done-accepted keys free) in
        let facts = done-IsCanceled in
        (
          result_of done facts.run true [],
          record {
            state_row = some (row_of done);
            lease =
                some
                  (record lease { expires_at_ms = session.write_env.now + mutation_lease_ttl_ms });
          },
          done,
          simp (readable, here, canceling, free_of, committed, facts.found, cleans facts.run),
          facts.phase,
          refl,
          facts,
        )
