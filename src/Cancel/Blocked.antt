-- ===== src/Cancel/Blocked.antt =====
-- apps/daemon/src/cancel/cancel-manager.ts: a cancellation that is blocked, for the first time and again.
use ai_smart_flow.Shared.{
  ◌≡◌, ◌+◌, refl, ◌∙◌, true, false, String, List, [], ◌∷◌, none, some, ◌==◌, text_eq, nat_eq, get,
  get-put, distinct_keys, beq_self, &&-right, &&-left,
}
use ai_smart_flow.Errors.{Result, ok}
use ai_smart_flow.Protocol.Json.{Json, Fields, field_get, field_put, field_get-put}
use ai_smart_flow.Protocol.Phase.{is_terminal, RunPhase, phase_eq}
use ai_smart_flow.State.Records.{RunRecord, ProjectState}
use ai_smart_flow.State.Refine.{refine_run, refine_state}
use ai_smart_flow.State.Update.{valid_lease, keep_run-refine}
use ai_smart_flow.Store.Database.{
  mutation_lease_ttl_ms, StateRow, LeaseRow, Database, Env, row_of, read_state, parse_state_row,
}
use ai_smart_flow.Store.Handle.{Handle, new_handle}
use ai_smart_flow.Store.Exclusion.{IsHeld}
use ai_smart_flow.Store.Schedule.{Operation, run}
use ai_smart_flow.Mutation.Executor.{Context, Draft, Session, canonical_replay, committed_state}
use ai_smart_flow.Mutation.InTurn.{mutate_in_turn}
use ai_smart_flow.Cancel.Manager.{
  CancellationRuntime, CancellationResult, blocked_run, blocked_build, blocked_request, texts,
  blocked_reasons, next_state_with_run, with_run, fields_or_none, join, object_of, result_of,
  reconcile,
}
use ai_smart_flow.Mutation.Bound.{valid_run, bound-guards}

-- What a blocked cancellation has done.
pub record IsBlocked (s : ProjectState) (job_id : String) (reasons : List String)
    (current : RunRecord) (t : ProjectState) : Type 0 where
  pub run : RunRecord
  pub found : get t.runs job_id ≡ some run
  pub phase : run.phase ≡ RunPhase.paused
  pub pause :
      run.pause
      ≡ some (record {
        code = "PAUSED_PROCESS_RECONCILIATION";
        resume_actions = "retry_cancel" ∷ "cancel" ∷ [];
      })
  pub cancellation : Fields
  pub recorded : run.cancellation ≡ some cancellation
  pub status : field_get cancellation "status" ≡ some (Json.str "BLOCKED")
  pub reasons_kept : field_get cancellation "blockedReasons" ≡ some (Json.arr (texts reasons))
  pub request_kept :
      (key : String)
      → ("status" == key) ≡ false
      → ("blockedReasons" == key) ≡ false
      → field_get cancellation key ≡ field_get (fields_or_none current.cancellation) key
  pub error :
      run.last_error
      ≡ some (record {
        code = "PAUSED_PROCESS_RECONCILIATION";
        stage = "cancel";
        message = join "," reasons;
        retryable = true;
        next_actions = "retry_cancel" ∷ "cancel" ∷ [];
        artifacts = [];
      })
  -- The run is as before but for these fields and its time of change.
  pub rest :
      record run {
        phase = current.phase;
        pause = current.pause;
        cancellation = current.cancellation;
        last_error = current.last_error;
        updated_at = current.updated_at;
      }
      ≡ current
  pub bindings : t.active_runs_by_task_path ≡ s.active_runs_by_task_path
  pub lease : t.publish_lease ≡ s.publish_lease
  pub others : (j : String) → (job_id == j) ≡ false → get t.runs j ≡ get s.runs j

module _ (canonical_hash : Json → String) (s : ProjectState) (job_id ended_at now : String)
    (current : RunRecord) (reason : String) (reasons : List String)
    (found : get s.runs job_id ≡ some current) (canceling : current.phase ≡ RunPhase.canceling)
    (valid : refine_state s ≡ true) where
  going : is_terminal current.phase ≡ false
  going = rw canceling refl

  abbrev blocked_state : ProjectState
  blocked_state = with_run s job_id current (blocked_run (reason ∷ reasons)) false now

  abbrev blocked_draft : Draft
  blocked_draft = record {
    next_state = blocked_state;
    response = Json.obj (
        Fields.field "phase" (Json.str "PAUSED")
          (object_of "blockedReasons" (Json.arr (texts (reason ∷ reasons)))));
  }

  blocked_build-drafts :
      (context : Context) → blocked_build job_id (reason ∷ reasons) now s context ≡ ok blocked_draft
  unfolding blocked_build next_state_with_run
  blocked_build-drafts context = simp found

  blocked-refine : distinct_keys s.runs ≡ true → refine_state blocked_state ≡ true
  unfolding refine_run
  blocked-refine keys =
      let run_ok = valid_run s job_id current found going valid in
      keep_run-refine s job_id current
        (record (blocked_run (reason ∷ reasons) current) { updated_at = now }) found
        (&&-right _ _ run_ok) refl (&&-left _ _ run_ok) keys valid going refl s.publish_lease
        (valid_lease s valid) blocked_state refl refl refl

  module _ (session : Session) (runtime : CancellationRuntime)
      (cleanup : RunRecord → Result (Unit {0})) (meanwhile : List (Env × Operation))
      (lease : LeaseRow) (row : StateRow) (db : Database) where
    abbrev paused : ProjectState
    paused =
        committed_state canonical_hash (blocked_request job_id (reason ∷ reasons) current) s
          blocked_draft session.updated_at

    paused-IsBlocked : IsBlocked s job_id (reason ∷ reasons) current paused
    unfolding committed_state blocked_request
    paused-IsBlocked = record {
      run = record (blocked_run (reason ∷ reasons) current) { updated_at = now };
      found = get-put s.runs job_id _ job_id ∙ rw (beq_self job_id) refl;
      phase = refl;
      pause = refl;
      cancellation =
          field_put (field_put (fields_or_none current.cancellation) "status" (Json.str "BLOCKED"))
            "blockedReasons" (Json.arr (texts (reason ∷ reasons)));
      recorded = refl;
      status =
          field_get-put _ "blockedReasons" _ "status"
          ∙ field_get-put (fields_or_none current.cancellation) "status" _ "status";
      reasons_kept = field_get-put _ "blockedReasons" _ "blockedReasons";
      request_kept = λ key k l.
          field_get-put _ "blockedReasons" _ key
          ∙ rw l (field_get-put (fields_or_none current.cancellation) "status" _ key ∙ rw k refl);
      error = refl;
      rest = refl;
      bindings = refl;
      lease = refl;
      others = λ j other. get-put s.runs job_id _ j ∙ rw other refl;
    }

    paused-accepted : distinct_keys s.runs ≡ true → refine_state paused ≡ true
    unfolding committed_state blocked_request refine_state
    paused-accepted keys = blocked-refine keys

    module _ (s₀ : ProjectState) (readable : read_state db ≡ ok s₀)
        (here : get s₀.runs job_id ≡ some current)
        (blocked : blocked_reasons runtime current ≡ reason ∷ reasons)
        (here_row : (run meanwhile db).state_row ≡ some row) (parsed : parse_state_row row ≡ ok s)
        (fresh : canonical_replay s
            (blocked_request job_id (reason ∷ reasons) current).request_id
            (canonical_hash (blocked_request job_id (reason ∷ reasons) current).payload)
          ≡ ok none)
        (still : run session.during_build (run meanwhile db) ≡ run meanwhile db)
        (idle : session.write_env.busy ≡ false) (present : (run meanwhile db).lease ≡ some lease)
        (held : IsHeld session.write_env lease) (keys : distinct_keys s.runs ≡ true) where
      abbrev after_pause : Database
      after_pause = record {
        state_row = some (row_of paused);
        lease =
            some (record lease { expires_at_ms = session.write_env.now + mutation_lease_ttl_ms });
      }

      blocked_call :
          reconcile canonical_hash session runtime cleanup ended_at now
            (new_handle lease.owner_token)
            meanwhile
            job_id
            db
          ≡ (ok (result_of paused paused-IsBlocked.run false (reason ∷ reasons)), after_pause)
      unfolding reconcile blocked_request paused-IsBlocked
      blocked_call =
          let committed =
            mutate_in_turn canonical_hash session
              (blocked_request job_id (reason ∷ reasons) current)
              (blocked_build job_id (reason ∷ reasons) now) lease row s blocked_draft
              (run meanwhile db) here_row parsed fresh
              (bound-guards s job_id current found going valid _ _ _ _ _ refl (rw canceling refl))
              (blocked_build-drafts _) still idle present held (paused-accepted keys) in
          simp (readable, here, canceling, blocked, committed, paused-IsBlocked.found)

      -- A cancellation that something blocks pauses the run in its turn: under the conditions of a
      -- write in turn, and without an earlier request for the same reasons, the call succeeds with
      -- the phase PAUSED and those reasons. In the stored state the run is PAUSED with the resume
      -- actions retry_cancel and cancel, its cancellation is BLOCKED for those reasons and its last
      -- error tells them. Otherwise its cancellation and the run are as before, but for its time of
      -- change, and so are the bindings, the publish lease and every other run.
      pub reconcile-IsBlocked :
          (result : CancellationResult) × (after : Database) × (t : ProjectState) × (reconcile
              canonical_hash session runtime cleanup ended_at now
              (new_handle lease.owner_token)
              meanwhile
              job_id
              db
            ≡ (ok result, after))
          × (result.phase ≡ RunPhase.paused)
          × (result.blocked_reasons ≡ reason ∷ reasons)
          × (after.state_row ≡ some (row_of t))
          × IsBlocked s job_id (reason ∷ reasons) current t
      reconcile-IsBlocked =
          let facts = paused-IsBlocked in
          (
            result_of paused facts.run false (reason ∷ reasons),
            after_pause,
            paused,
            blocked_call,
            facts.phase,
            refl,
            refl,
            facts,
          )
