-- ===== src/Coordinator/Leases.antt =====
-- apps/daemon/src/publish/publish-coordinator.ts: the lease of a publication excludes every other.
use ai_smart_flow.Shared.{
  ◌≡◌, inl, inr, refl, sym, ap, ◌∙◌, subst, ℕ, Bool, true, false, String, List, Option, none, some,
  ◌&&◌, ◌==◌, text_eq, eq_iff, arith, beq_self, &&-left, &&-right,
}
use ai_smart_flow.Errors.{Result, ok, err, ok-injective}
use ai_smart_flow.Protocol.Json.{Json, field_get}
use ai_smart_flow.Protocol.Records.{PublishResult}
use ai_smart_flow.State.Records.{ProjectState, PublishAttempt, PublishLease}
use ai_smart_flow.State.Refine.{refine_state}
use ai_smart_flow.Store.Database.{Database, Env, row_of, read_state}
use ai_smart_flow.Store.Handle.{Handle}
use ai_smart_flow.Store.Schedule.{Operation, run}
use ai_smart_flow.Mutation.Executor.{
  Request, Outcome, Draft, Session, canonical_replay, committed_state,
}
use ai_smart_flow.Mutation.Mutate.{mutate_body}
use ai_smart_flow.Mutation.Answers.{Answers, IsFresh, mutate_body-Answers}
use ai_smart_flow.Mutation.Guarantees.{read_of_stored}
use ai_smart_flow.Coordinator.Builds.{
  Identity, lease_is, lease_free_for, acquired_of, taken, acquire_build,
}
use ai_smart_flow.Coordinator.Attempts.{lease_request, acquire_lease, after_acquired}

not_both : (o : Result (Option Json)) {response : Json} → o ≡ ok (some response) → o ≡ ok none → ⊥
not_both o h k = absurd (ground (arith, h, k))

-- The lease after a successful acquisition.
taken-lease :
    (s : ProjectState) (job_id operation_id now : String) (lease : Option PublishLease)
    → s.publish_lease ≡ lease
    → lease_free_for lease job_id operation_id ≡ true
    → lease_is (taken s job_id operation_id now lease).publish_lease job_id operation_id ≡ true
taken-lease s job_id operation_id now none same free =
    rw (beq_self job_id, beq_self operation_id) refl
taken-lease s job_id operation_id now (some lease) same free = rw same free

-- A lease that is one publication's is not free for another.
other-excluded :
    (lease : Option PublishLease) (job_id operation_id other_job other_operation : String)
    → lease_is lease job_id operation_id ≡ true
    → (job_id == other_job && operation_id == other_operation) ≡ false
    → lease_free_for lease other_job other_operation ≡ false
other-excluded none job_id operation_id other_job other_operation held differs =
    absurd (ground arith)
other-excluded (some lease) job_id operation_id other_job other_operation held differs =
    let job = (eq_iff lease.job_id job_id).0 (&&-left _ _ held) in
    let operation = (eq_iff lease.operation_id operation_id).0 (&&-right _ _ held) in
    rw (job, operation) differs

-- The stored state has the lease of the publication.
pub record HoldsLease (job_id operation_id : String) (after : Database) : Type 0 where
  pub state : ProjectState
  pub written : after.state_row ≡ some (row_of state)
  pub accepted : refine_state state ≡ true
  pub held : lease_is state.publish_lease job_id operation_id ≡ true

module _ (canonical_hash : Json → String) (decimal : ℕ → String)
    (attempt_json : PublishAttempt → Json) (result_json : PublishResult → Json) (session : Session)
    (handle : Handle) (meanwhile : List (Env × Operation)) (now : String) (job_id : String)
    (identity : Identity) (operation_id : String) (observed s : ProjectState) (db : Database) where
  abbrev request : Request
  request =
      lease_request canonical_hash decimal attempt_json result_json session handle meanwhile now
        job_id identity operation_id "acquire" observed

  abbrev outcome : Result Outcome × Database
  outcome =
      mutate_body canonical_hash session request (acquire_build job_id operation_id now) none handle
        (run meanwhile db)

  abbrev acquired : Result Outcome × Database → Result Bool × Database
  acquired =
      after_acquired canonical_hash decimal attempt_json result_json session handle meanwhile now
        job_id identity

  fresh-holds :
      (o : Outcome) (after : Database)
      → acquired_of o.response ≡ true
      → IsFresh canonical_hash session request (acquire_build job_id operation_id now) s o after
      → HoldsLease job_id operation_id after
  unfolding acquire_build committed_state refine_state field_get
  fresh-holds o after got fresh =
      let draft = ok-injective _ fresh.draft fresh.committed.built in
      let free =
        ap (λ (d : Draft). acquired_of d.response) draft
        ∙ ap acquired_of (sym fresh.response)
        ∙ got in
      record {
        state = committed_state canonical_hash request s fresh.draft session.updated_at;
        written = fresh.committed.stored;
        accepted = fresh.committed.accepted;
        held =
            subst (λ (d : Draft). lease_is d.next_state.publish_lease job_id operation_id ≡ true)
              draft (taken-lease s job_id operation_id now s.publish_lease refl free);
      }

  acquired-holds :
      (after : Database) (p : Result Outcome × Database)
      → canonical_replay s request.request_id (canonical_hash request.payload) ≡ ok none
      → acquired p ≡ (ok true, after)
      → Answers canonical_hash session request
          (acquire_build job_id operation_id now)
          s
          (run meanwhile db)
          p
      → HoldsLease job_id operation_id after
  acquired-holds after (err e, d) unanswered same h = absurd (ground arith)
  acquired-holds after (ok o, d) unanswered same (inl replay) =
      absurd (not_both _ (replay.receipt) unanswered)
  acquired-holds after (ok o, d) unanswered same (inr fresh) =
      subst (HoldsLease job_id operation_id) (ap (λ (x : Result Bool × Database). x.1) same) (
        fresh-holds o d (ok-injective _ true (ap (λ (x : Result Bool × Database). x.0) same)) fresh)

  -- Where the stored lease is another publication's, an acquisition is refused and changes nothing.
  refused :
      (other_job other_operation : String)
      → HoldsLease other_job other_operation db
      → (other_job == job_id && other_operation == operation_id) ≡ false
      → acquire_lease canonical_hash decimal attempt_json result_json session handle meanwhile now
          job_id identity operation_id db
        ≡ (ok false, db)
  unfolding acquire_lease
  refused other_job other_operation holds differs = simp (
    read_of_stored db holds.state holds.written holds.accepted,
    other-excluded holds.state.publish_lease other_job other_operation job_id operation_id
        holds.held differs,
  )

-- One publication at a time: after an acquisition of the lease that was answered with true, in a turn
-- of the store where no other process changes the state and without an earlier receipt, every
-- acquisition for another run or another operation is answered with false and changes nothing, as
-- long as the stored state is the one that the first acquisition left.
pub acquire_lease-excludes :
    (canonical_hash : Json → String) (decimal : ℕ → String) (attempt_json : PublishAttempt → Json)
    (result_json : PublishResult → Json) (session session' : Session) (handle handle' : Handle)
    (meanwhile meanwhile' : List (Env × Operation)) (now now' job_id job_id' : String)
    (identity identity' : Identity) (operation_id operation_id' : String)
    (observed s : ProjectState) (db after later : Database)
    → read_state db ≡ ok observed
    → lease_free_for observed.publish_lease job_id operation_id ≡ true
    → read_state (run meanwhile db) ≡ ok s
    → canonical_replay s
        (lease_request canonical_hash decimal attempt_json result_json session handle meanwhile now
          job_id identity operation_id "acquire" observed).request_id
        (canonical_hash
          (lease_request canonical_hash decimal attempt_json result_json session handle meanwhile
            now job_id identity operation_id "acquire" observed).payload)
      ≡ ok none
    → run session.during_build (run meanwhile db) ≡ run meanwhile db
    → ((d : Database) → (run session.during_prepare d).state_row ≡ d.state_row)
    → acquire_lease canonical_hash decimal attempt_json result_json session handle meanwhile now
        job_id identity operation_id db
      ≡ (ok true, after)
    → later.state_row ≡ after.state_row
    → (job_id == job_id' && operation_id == operation_id') ≡ false
    → acquire_lease canonical_hash decimal attempt_json result_json session' handle' meanwhile' now'
        job_id' identity' operation_id' later
      ≡ (ok false, later)
unfolding acquire_lease
acquire_lease-excludes canonical_hash decimal attempt_json result_json session session' handle
      handle' meanwhile meanwhile' now now' job_id job_id' identity identity' operation_id
      operation_id' observed s db after later readable free again unanswered still quiet first row
      differs =
    let holds =
      acquired-holds canonical_hash decimal attempt_json result_json session handle meanwhile now
        job_id identity operation_id observed s db after _ unanswered
        (simp (readable, free) at first)
        (mutate_body-Answers canonical_hash session _ (acquire_build job_id operation_id now) s none
          handle (run meanwhile db) again still quiet) in
    refused canonical_hash decimal attempt_json result_json session' handle' meanwhile' now' job_id'
      identity' operation_id' observed s later job_id operation_id
      (record {
        state = holds.state;
        written = row ∙ holds.written;
        accepted = holds.accepted;
        held = holds.held;
      })
      differs
