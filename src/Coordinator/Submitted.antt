-- ===== src/Coordinator/Submitted.antt =====
-- apps/daemon/src/publish/publish-coordinator.ts: `markSubmittedAndApply` writes before it applies.
use ai_smart_flow.Shared.{
  ◌≡◌, ◌⊎◌, inl, inr, refl, sym, ap, ◌∙◌, subst, ℕ, true, String, List, Option, none, some, ◌&&◌,
  ◌==◌, text_eq, eq_iff, arith, get, get-put, Bool-cases, beq_self, &&-left,
}
use ai_smart_flow.Errors.{Failure, Result, ok, err, ok-injective, >>=-eq-ok, thrown}
use ai_smart_flow.Protocol.Json.{Json}
use ai_smart_flow.Protocol.Records.{PublishResult}
use ai_smart_flow.State.Records.{RunRecord, ProjectState, PublishAttempt, AttemptStatus}
use ai_smart_flow.Store.Database.{Database, Env, row_of, read_state}
use ai_smart_flow.Store.Handle.{Handle}
use ai_smart_flow.Store.Schedule.{Operation, run}
use ai_smart_flow.Mutation.Executor.{
  Request, Outcome, Context, Draft, Build, Session, mutation_context, committed_state,
}
use ai_smart_flow.Mutation.Mutate.{mutate_body}
use ai_smart_flow.Mutation.Answers.{Answers, IsFresh, mutate_body-Answers}
use ai_smart_flow.Coordinator.Builds.{
  Identity, next_of, next_state, active_publish, is_prepared, submittable, submit_build,
}
use ai_smart_flow.Coordinator.Attempts.{submit_request, mark_submitted_and_apply}

-- The publication of the run is recorded as submitted, under this operation.
pub record IsSubmitted (job_id operation_id : String) (t : ProjectState) : Type 0 where
  pub run : RunRecord
  pub attempt : PublishAttempt
  pub found : get t.runs job_id ≡ some run
  pub publish : run.publish ≡ some attempt
  pub operation : attempt.operation_id ≡ operation_id
  pub status : attempt.status ≡ AttemptStatus.submitted

refused_ok : (e : Failure) (a : PublishAttempt) → err e ≡ ok a → ⊥
refused_ok e a h = absurd (ground arith)

submittable_ok :
    (operation_id : String) (o : Option PublishAttempt) (a : PublishAttempt)
    → submittable operation_id o ≡ ok a
    → (a.operation_id ≡ operation_id) × (a.status ≡ AttemptStatus.submitted)
submittable_ok operation_id none a h = absurd (ground arith)
submittable_ok operation_id (some b) a h =
    elim (Bool-cases (b.operation_id == operation_id && is_prepared b.status)) [
      | inl able ↦
          let same =
            ok-injective (record b { status = AttemptStatus.submitted }) a (rw able at h) in
          (
            ap (λ (x : PublishAttempt). x.operation_id) (sym same)
                ∙ (eq_iff b.operation_id operation_id).0 (&&-left _ _ able),
            ap (λ (x : PublishAttempt). x.status) (sym same),
          )
      | inr stale ↦ absurd (refused_ok _ a (rw stale at h))
    ]

submitted_next :
    (s : ProjectState) (job_id operation_id now : String) (submitted : PublishAttempt)
    (found : Option RunRecord) (next : ProjectState)
    → submitted.operation_id ≡ operation_id
    → submitted.status ≡ AttemptStatus.submitted
    → next_of s job_id found (λ run. ok (record run { publish = some submitted })) now ≡ ok next
    → IsSubmitted job_id operation_id next
submitted_next s job_id operation_id now submitted none next op status h = absurd (ground arith)
submitted_next s job_id operation_id now submitted (some run) next op status h =
    subst (IsSubmitted job_id operation_id) (ok-injective _ next h) (record {
      run = record run { publish = some submitted; updated_at = now };
      attempt = submitted;
      found = get-put s.runs job_id _ job_id ∙ rw (beq_self job_id) refl;
      publish = refl;
      operation = op;
      status = status;
    })

module _ (job_id operation_id now : String) (boundary : ProjectState → Result (Unit {0}))
    (s : ProjectState) (context : Context) (draft : Draft) where
  submit_build-IsSubmitted :
      submit_build job_id operation_id boundary now s context ≡ ok draft
      → IsSubmitted job_id operation_id draft.next_state × (boundary s ≡ ok tt)
  unfolding submit_build next_state
  submit_build-IsSubmitted h =
      let (submitted, able, rest) =
        >>=-eq-ok (submittable operation_id (active_publish (get s.runs job_id))) _ h in
      let (u, passed, last) = >>=-eq-ok (boundary s) _ rest in
      let (next, made, same) =
        >>=-eq-ok
          (next_of s job_id (get s.runs job_id)
            (λ run. ok (record run { publish = some submitted })) now)
          _ last in
      let (op, status) =
        submittable_ok operation_id (active_publish (get s.runs job_id)) submitted able in
      (
        subst (λ d. IsSubmitted job_id operation_id d.next_state) (ok-injective _ draft same)
            (submitted_next s job_id operation_id now submitted (get s.runs job_id) next op status
              made),
        passed,
      )

module _ {ℓ} (A : Type ℓ) (canonical_hash : Json → String) (decimal : ℕ → String)
    (attempt_json : PublishAttempt → Json) (result_json : PublishResult → Json) (session : Session)
    (handle : Handle) (meanwhile : List (Env × Operation)) (now : String) (job_id : String)
    (identity : Identity) (operation_id : String) (boundary : ProjectState → Result (Unit {0}))
    (s : ProjectState) (db : Database) where
  abbrev marked : (Database → Result A × Database) → Result A × Database
  marked apply =
      mark_submitted_and_apply canonical_hash decimal attempt_json result_json session handle
        meanwhile now job_id identity operation_id apply (some boundary) db

  -- The call answers without an application, whichever is given.
  abbrev pub NotApplied : Type ℓ
  NotApplied =
      (e : Failure) × (after : Database) × ((apply : Database → Result A × Database)
        → marked apply ≡ (err e, after))

  -- The application is made on a database that has the submitted attempt.
  pub record IsApplication : Type ℓ where
    pub after : Database
    pub stored : ProjectState
    pub written : after.state_row ≡ some (row_of stored)
    pub submitted : IsSubmitted job_id operation_id stored
    pub allowed : boundary s ≡ ok tt
    pub applied : (apply : Database → Result A × Database) → marked apply ≡ apply after

  abbrev request : Request
  request =
      submit_request canonical_hash decimal attempt_json result_json session handle meanwhile now
        job_id identity operation_id

  abbrev build : Build
  build = submit_build job_id operation_id boundary now

  abbrev outcome : Result Outcome × Database
  outcome =
      mutate_body canonical_hash session request build
        (some (λ committed response. boundary committed)) handle (run meanwhile db)

  applied_after :
      (o : Outcome) (after : Database)
      → outcome ≡ (ok o, after)
      → o.effect_started ≡ true
      → IsFresh canonical_hash session request build s o after
      → IsApplication
  unfolding mark_submitted_and_apply committed_state
  applied_after o after same started fresh =
      let (facts, allowed) =
        submit_build-IsSubmitted job_id operation_id now boundary s (mutation_context request s)
          fresh.draft fresh.committed.built in
      record {
        after = after;
        stored = committed_state canonical_hash request s fresh.draft session.updated_at;
        written = fresh.committed.stored;
        submitted = record {
          run = facts.run;
          attempt = facts.attempt;
          found = facts.found;
          publish = facts.publish;
          operation = facts.operation;
          status = facts.status;
        };
        allowed = allowed;
        applied = λ apply. rw same (rw started refl);
      }

  answered :
      (p : Result Outcome × Database)
      → outcome ≡ p
      → Answers canonical_hash session request build s (run meanwhile db) p
      → NotApplied ⊎ IsApplication
  unfolding mark_submitted_and_apply
  answered (err e, after) same h = inl (e, after, λ apply. rw same refl)
  answered (ok o, after) same (inl replay) =
      let idle = ap (λ (x : Outcome). x.effect_started) replay.outcome in
      inl (thrown "PUBLISH_APPLY_HANDOFF_REPLAY_BLOCKED", after, λ apply. rw same (rw idle refl))
  answered (ok o, after) same (inr fresh) = elim (Bool-cases o.effect_started) [
    | inr idle ↦
        inl (thrown "PUBLISH_APPLY_HANDOFF_REPLAY_BLOCKED", after, λ apply. rw same (rw idle refl))
    | inl started ↦ inr (applied_after o after same started fresh)
  ]

  -- The application waits for the record: in one turn of the store, while other processes leave the
  -- stored state alone, the call for an operation either fails the same way whichever application is
  -- given, or it is the application made on a database whose stored state records the attempt of that
  -- operation as SUBMITTED, after the boundary's check of the state that was read.
  pub mark_submitted-applies :
      read_state (run meanwhile db) ≡ ok s
      → run session.during_build (run meanwhile db) ≡ run meanwhile db
      → ((d : Database) → (run session.during_prepare d).state_row ≡ d.state_row)
      → NotApplied ⊎ IsApplication
  mark_submitted-applies readable still quiet = answered outcome refl (
      mutate_body-Answers canonical_hash session request build s
        (some (λ committed response. boundary committed)) handle (run meanwhile db) readable still
        quiet)
