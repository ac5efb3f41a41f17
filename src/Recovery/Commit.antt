-- ===== src/Recovery/Commit.antt =====
-- apps/daemon/src/recovery/recovery-manager.ts: a change of one run that recovery commits in its turn.
use ai_smart_flow.Shared.{
  ◌≡◌, ◌+◌, refl, sym, ℕ, Bool, true, false, String, List, Option, none, some, text_eq, nat_eq,
  if◌then◌else◌, get, distinct_keys, beq_self, beq_of,
}
use ai_smart_flow.Errors.{Result, ok}
use ai_smart_flow.Protocol.Json.{Json, Fields}
use ai_smart_flow.Protocol.Phase.{phase_eq, is_terminal}
use ai_smart_flow.State.Records.{RunRecord, ProjectState}
use ai_smart_flow.State.Refine.{refine_run, refine_state}
use ai_smart_flow.State.Update.{valid_lease, lease_held_by, keep_run-refine, end_run-refine}
use ai_smart_flow.Store.Database.{
  mutation_lease_ttl_ms, StateRow, LeaseRow, Database, Env, row_of, parse_state_row,
}
use ai_smart_flow.Store.Handle.{new_handle}
use ai_smart_flow.Store.Exclusion.{IsHeld}
use ai_smart_flow.Store.Schedule.{Operation, run}
use ai_smart_flow.Mutation.Executor.{
  Draft, Context, Session, canonical_replay, committed_state, fresh_outcome,
}
use ai_smart_flow.Mutation.InTurn.{mutate_in_turn}
use ai_smart_flow.Mutation.Bound.{bound-guards}
use ai_smart_flow.Cancel.Manager.{with_run, object_of}
use ai_smart_flow.Recovery.Changes.{
  PublishRecoveryObservation, RecoveryRuntime, Change, recovered_state, held_for, release_lease,
  recovery_build, recovery_request,
}
use ai_smart_flow.Recovery.Manager.{commit}

-- The state with the changed run, and without the lease if it is given back.
abbrev pub moved_state :
    ProjectState → RunRecord → RunRecord → Bool → Option String → String → ProjectState
moved_state s current changed terminal release now =
    release_lease (with_run s current.job_id current (λ r. changed) terminal now) current.job_id
      release

abbrev pub moved_draft : ProjectState → String → Draft
moved_draft next transition = record {
  next_state = next;
  response = Json.obj (object_of "transition" (Json.str transition));
}

released-runs :
    (b : Bool) (s : ProjectState)
    → (if b then record s { publish_lease = none } else s).runs ≡ s.runs
released-runs true s = refl
released-runs false s = refl

released-bindings :
    (b : Bool) (s : ProjectState)
    → (if b then record s { publish_lease = none } else s).active_runs_by_task_path
      ≡ s.active_runs_by_task_path
released-bindings true s = refl
released-bindings false s = refl

released-lease :
    (b : Bool) (s : ProjectState) (job_id : String)
    → (b ≡ false → lease_held_by s.publish_lease job_id ≡ false)
    → lease_held_by (if b then record s { publish_lease = none } else s).publish_lease job_id
      ≡ false
released-lease true s job_id free = refl
released-lease false s job_id free = free refl

-- Giving the lease back leaves the runs and the bindings.
pub release_lease-runs :
    (s : ProjectState) (job_id : String) (operation : Option String)
    → (release_lease s job_id operation).runs ≡ s.runs
release_lease-runs s job_id operation = released-runs (held_for operation s.publish_lease job_id) s

pub release_lease-bindings :
    (s : ProjectState) (job_id : String) (operation : Option String)
    → (release_lease s job_id operation).active_runs_by_task_path ≡ s.active_runs_by_task_path
release_lease-bindings s job_id operation =
    released-bindings (held_for operation s.publish_lease job_id) s

-- Afterwards a run that holds no lease but that of the operation holds none.
pub release_lease-free :
    (s : ProjectState) (job_id : String) (operation : Option String)
    → (held_for operation s.publish_lease job_id ≡ false
        → lease_held_by s.publish_lease job_id ≡ false)
    → lease_held_by (release_lease s job_id operation).publish_lease job_id ≡ false
release_lease-free s job_id operation free =
    released-lease (held_for operation s.publish_lease job_id) s job_id free

module _ (s : ProjectState) (current changed : RunRecord)
    (found : get s.runs current.job_id ≡ some current) (going : is_terminal current.phase ≡ false)
    (valid : refine_state s ≡ true) (keys : distinct_keys s.runs ≡ true)
    (accepted : refine_run changed ≡ true) (same_job : changed.job_id ≡ current.job_id)
    (same_path : changed.canonical_task_path ≡ current.canonical_task_path) (now : String) where
  abbrev stamped : RunRecord
  stamped = record changed { updated_at = now }

  stamped-refine : refine_run stamped ≡ true
  unfolding refine_run
  stamped-refine = accepted

  pub moved-refine :
      is_terminal changed.phase ≡ false
      → refine_state (moved_state s current changed false none now) ≡ true
  unfolding refine_state
  moved-refine still =
      keep_run-refine s current.job_id current stamped found (beq_of (sym same_job)) same_path
        stamped-refine keys valid going still s.publish_lease (valid_lease s valid)
        (with_run s current.job_id current (λ r. changed) false now) refl refl refl

  -- The state after the end of the run, which holds no lease but that of its publication.
  pub ended-refine :
      (operation : String) (b : Bool)
      → is_terminal changed.phase ≡ true
      → held_for (some operation) s.publish_lease current.job_id ≡ b
      → (b ≡ false → lease_held_by s.publish_lease current.job_id ≡ false)
      → refine_state (moved_state s current changed true (some operation) now) ≡ true
  ended-refine operation true ended held free = rw held (
      end_run-refine s current.job_id current stamped found (beq_of (sym same_job)) same_path
        stamped-refine keys valid going ended none refl refl
        (record (with_run s current.job_id current (λ r. changed) true now) {
          publish_lease = none;
        })
        refl refl refl)
  ended-refine operation false ended held free = rw held (
      end_run-refine s current.job_id current stamped found (beq_of (sym same_job)) same_path
        stamped-refine keys valid going ended s.publish_lease (valid_lease s valid) (free refl)
        (with_run s current.job_id current (λ r. changed) true now) refl refl refl)

module _ (canonical_hash : Json → String) (decimal : ℕ → String) (digest : String → String)
    (observation_json : PublishRecoveryObservation → Json) (session : Session)
    (meanwhile : List (Env × Operation)) (runtime : RecoveryRuntime)
    (cleanup : RunRecord → Result (Unit {0})) (ended_at now : String) (s : ProjectState)
    (current : RunRecord) (lease : LeaseRow) (row : StateRow) (db : Database) where
  -- The conditions of a commit in its turn, on the state read first: it is still the stored one, no
  -- other process changes it, and the lease is that of a live process.
  pub record IsTurn (transition : String) (payload : Fields) : Type 0 where
    pub here : (run meanwhile db).state_row ≡ some row
    pub parsed : parse_state_row row ≡ ok s
    pub unanswered :
        let r = recovery_request decimal s current transition payload in
        canonical_replay s r.request_id (canonical_hash (Json.obj payload)) ≡ ok none
    pub still : run session.during_build (run meanwhile db) ≡ run meanwhile db
    pub idle : session.write_env.busy ≡ false
    pub present : (run meanwhile db).lease ≡ some lease
    pub held : IsHeld session.write_env lease

  abbrev pub renewed : LeaseRow
  renewed = record lease { expires_at_ms = session.write_env.now + mutation_lease_ttl_ms }

  -- The state that a commit stores for a draft.
  abbrev pub stored_state : String → Fields → Draft → ProjectState
  stored_state transition payload draft =
      committed_state canonical_hash (recovery_request decimal s current transition payload) s draft
        session.updated_at

  build-drafts :
      (transition : String) (change : Change) (terminal : Bool) (release : Option String)
      (changed : RunRecord)
      → get s.runs current.job_id ≡ some current
      → change current ≡ ok changed
      → (context : Context)
      → recovery_build current.job_id transition change terminal release now s context
        ≡ ok (moved_draft (moved_state s current changed terminal release now) transition)
  unfolding recovery_build recovered_state
  build-drafts transition change terminal release changed found changes context =
      simp (found, changes)

  stored-accepted :
      (transition : String) (payload : Fields) (draft : Draft)
      → refine_state draft.next_state ≡ true
      → refine_state (stored_state transition payload draft) ≡ true
  unfolding committed_state refine_state
  stored-accepted transition payload draft accepted = accepted

  -- A commit in its turn succeeds, and stores the state with the changed run.
  pub commit_in_turn :
      (transition : String) (payload : Fields) (change : Change) (terminal : Bool)
      (release : Option String) (changed : RunRecord)
      → IsTurn transition payload
      → get s.runs current.job_id ≡ some current
      → is_terminal current.phase ≡ false
      → refine_state s ≡ true
      → change current ≡ ok changed
      → refine_state (moved_state s current changed terminal release now) ≡ true
      → let draft = moved_draft (moved_state s current changed terminal release now) transition in
        commit canonical_hash decimal digest observation_json session
          (new_handle lease.owner_token)
          meanwhile
          runtime
          cleanup
          ended_at
          now
          s
          current
          transition
          payload
          change
          terminal
          release
          db
        ≡ (
          ok (fresh_outcome (stored_state transition payload draft) draft.response false),
          record {
            state_row = some (row_of (stored_state transition payload draft));
            lease = some renewed;
          },
        )
  unfolding commit
  commit_in_turn transition payload change terminal release changed turn found going valid changes
        accepted =
      let draft = moved_draft (moved_state s current changed terminal release now) transition in
      mutate_in_turn canonical_hash session (recovery_request decimal s current transition payload)
        (recovery_build current.job_id transition change terminal release now) lease row s draft
        (run meanwhile db) turn.here turn.parsed turn.unanswered
        (bound-guards s current.job_id current found going valid _ _ _ _ _
          (beq_self s.state_version) (rw (beq_self current.phase) refl))
        (build-drafts transition change terminal release changed found changes _) turn.still
        turn.idle turn.present turn.held (stored-accepted transition payload draft accepted)
