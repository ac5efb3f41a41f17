-- ===== src/Mutation/Fencing.antt =====
-- Fences: the run that a mutation works on, and callers that hold an older fence.
use ai_smart_flow.Shared.{
  ℕ, ◌≡◌, ◌≢◌, ◌+◌, refl, true, false, String, Option, none, some, arith, inl, inr, sym, ◌∙◌, ◌≤◌,
  subst, get, get-put, beq_self, text_eq, nat_eq,
}
use ai_smart_flow.Errors.{Failure, ok, err, Result-cases}
use ai_smart_flow.Protocol.Json.{Json}
use ai_smart_flow.State.Records.{RunRecord, ProjectState}
use ai_smart_flow.Store.Database.{Database, read_state}
use ai_smart_flow.Store.Handle.{Handle}
use ai_smart_flow.Store.Schedule.{run}
use ai_smart_flow.Mutation.Executor.{
  Request, Draft, Outcome, Build, Prepare, Session, canonical_replay, check_guards,
  mutation_context, committed_state,
}
use ai_smart_flow.Mutation.Mutate.{mutate_body}
use ai_smart_flow.Mutation.Answers.{IsFresh, Answers, mutate_body-Answers}
use ai_smart_flow.Mutation.Guarantees.{IsGuarded, check_fence, read_of_row, read_of_stored}

-- The run of an advanced draft carries the next project fence.
advanced_run :
    (canonical_hash : Json → String) (r : Request) (s : ProjectState) (draft : Draft) (now : String)
    (job_id : String) (kept : RunRecord)
    → r.advance_fence ≡ true
    → r.expected_job_id ≡ some job_id
    → get draft.next_state.runs job_id ≡ some kept
    → get (committed_state canonical_hash r s draft now).runs job_id
      ≡ some (record kept { fence = s.project_fence + 1 })
unfolding committed_state mutation_context
advanced_run canonical_hash r s draft now job_id kept advance job found =
    simp (advance, job, found, get-put, beq_self job_id)

module _ (canonical_hash : Json → String) (session : Session) (r : Request) (build : Build)
    (prepare : Option Prepare) (h : Handle) (db : Database) (s : ProjectState)
    (readable : read_state db ≡ ok s) where
  unanswered_guards :
      (e : Failure)
      → canonical_replay s r.request_id (canonical_hash r.payload) ≡ ok none
      → check_guards r s ≡ err e
      → mutate_body canonical_hash session r build prepare h db ≡ (err e, db)
  unfolding mutate_body
  unanswered_guards e fresh refused = rw readable (rw fresh (rw refused refl))

  -- A request that has no receipt and names a run by a fence that is not the run's fails, and leaves
  -- the database as it is.
  pub mutate_stale_fence :
      (job_id : String) (fence : ℕ) (active : RunRecord)
      → r.expected_job_id ≡ some job_id
      → r.expected_fence ≡ some fence
      → get s.runs job_id ≡ some active
      → active.fence ≢ fence
      → canonical_replay s r.request_id (canonical_hash r.payload) ≡ ok none
      → (e : Failure) × (mutate_body canonical_hash session r build prepare h db ≡ (err e, db))
  mutate_stale_fence job_id fence active job f found other fresh =
      elim (Result-cases (check_guards r s)) [
        | inr (e, refused) ↦ (e, unanswered_guards e fresh refused)
        | inl (_, passed) ↦
            let g = check_fence r s job_id fence job f passed in
            absurd (other (ground (arith, g.found, g.fenced)))
      ]

module _ (canonical_hash : Json → String) (session : Session) (r : Request) (build : Build)
    (prepare : Option Prepare) (h : Handle) (db : Database) (s : ProjectState)
    (readable : read_state db ≡ ok s) where
  module _ (still : run session.during_build db ≡ db)
      (quiet : (d : Database) → (run session.during_prepare d).state_row ≡ d.state_row)
      (o : Outcome) (after : Database)
      (answered : mutate_body canonical_hash session r build prepare h db ≡ (ok o, after))
      (new : o.replayed ≡ false) where
    IsFresh-of :
        Answers canonical_hash session r build s db (ok o, after)
        → IsFresh canonical_hash session r build s o after
    IsFresh-of (inr fresh) = fresh
    IsFresh-of (inl replay) =
        let before : o.replayed ≡ true = λ i. (replay.outcome i).replayed in cc

    outcome-IsFresh : IsFresh canonical_hash session r build s o after
    outcome-IsFresh = IsFresh-of (
        subst (Answers canonical_hash session r build s db) answered
          (mutate_body-Answers canonical_hash session r build s prepare h db readable still quiet))

    stored_outcome : read_state after ≡ ok o.state
    stored_outcome =
        let fresh = outcome-IsFresh in
        read_of_stored after (committed_state canonical_hash r s fresh.draft session.updated_at)
          fresh.committed.stored fresh.committed.accepted
        ∙ (λ i. ok (sym fresh.state i))

    -- A fresh answer, given while the other processes left the row alone, to a request that names a
    -- run by its fence: that run had the fence and was bound to its task, and the answer is the next
    -- version of the state, with the next project fence, and is what is stored.
    pub mutate_fresh :
        (job_id : String) (fence : ℕ)
        → r.expected_job_id ≡ some job_id
        → r.expected_fence ≡ some fence
        → IsGuarded r s job_id fence
          × (o.state.state_version ≡ s.state_version + 1)
          × (o.state.project_fence ≡ s.project_fence + 1)
          × (read_state after ≡ ok o.state)
    unfolding committed_state
    mutate_fresh job_id fence job f =
        let fresh = outcome-IsFresh in
        (
          check_fence r s job_id fence job f fresh.committed.guarded,
          λ i. (fresh.state i).state_version,
          λ i. (fresh.state i).project_fence,
          stored_outcome,
        )

    -- After a fresh mutation that advanced the fence of a run which its draft keeps, done while the
    -- other processes left the row alone, every request on a database with the row that it left, under
    -- any lease, fails and leaves that database as it is, if the request names the run by a fence up
    -- to the project fence of before and has no receipt.
    pub mutate_overtaken :
        (job_id : String) (draft : Draft) (kept : RunRecord)
        → r.advance_fence ≡ true
        → r.expected_job_id ≡ some job_id
        → build s (mutation_context r s) ≡ ok draft
        → get draft.next_state.runs job_id ≡ some kept
        → (session' : Session) (r' : Request) (build' : Build) (prepare' : Option Prepare)
          (h' : Handle) (db' : Database) (old : ℕ)
        → db'.state_row ≡ after.state_row
        → r'.expected_job_id ≡ some job_id
        → r'.expected_fence ≡ some old
        → old ≤ s.project_fence
        → canonical_replay o.state r'.request_id (canonical_hash r'.payload) ≡ ok none
        → (e : Failure) × (mutate_body canonical_hash session' r' build' prepare' h' db'
            ≡ (err e, db'))
    mutate_overtaken job_id draft kept advance job built keeps session' r' build' prepare' h' db'
          old row job' f le none_yet =
        let fresh = outcome-IsFresh in
        let drafted = fresh.committed.built in
        let same : fresh.draft ≡ draft = cc in
        mutate_stale_fence canonical_hash session' r' build' prepare' h' db' o.state
          (read_of_row db' after row ∙ stored_outcome) job_id old
          (record kept { fence = s.project_fence + 1 }) job' f
          (rw fresh.state (
            advanced_run canonical_hash r s fresh.draft session.updated_at job_id kept advance job
              (rw same keeps)))
          (omega arith) none_yet
