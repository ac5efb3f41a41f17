-- ===== src/Mutation/Guarantees.antt =====
-- What the callers of `mutate` rely on when they repeat a request or name a run.
use ai_smart_flow.Shared.{
  ℕ, ◌≡◌, refl, true, String, Option, none, some, arith, inl, inr, sym, ◌∙◌, subst, get, get-put,
  beq_self, text_eq, nat_eq, opt_eq→eq, opt_eq,
}
use ai_smart_flow.Errors.{ok}
use ai_smart_flow.Protocol.Json.{Json}
use ai_smart_flow.Protocol.Phase.{phase_eq}
use ai_smart_flow.State.Records.{RunRecord, ProjectState}
use ai_smart_flow.State.Refine.{refine_state}
use ai_smart_flow.Store.Database.{Database, row_of, read_state, database_state}
use ai_smart_flow.Store.Handle.{Handle}
use ai_smart_flow.Store.Rows.{parse-row_of}
use ai_smart_flow.Store.Schedule.{run}
use ai_smart_flow.Mutation.Executor.{
  Request, Draft, Outcome, Build, Prepare, Session, canonical, canonical_replay, check_guards,
  committed_state, replay_outcome, run_fence, run_is_active, fence_expected, job_expected,
  binding_expected,
}
use ai_smart_flow.Mutation.Mutate.{mutate_body}
use ai_smart_flow.Mutation.Answers.{Answers, mutate_body-Answers}

-- The committed state records the answer of the request.
pub replay-committed :
    (canonical_hash : Json → String) (r : Request) (s : ProjectState) (draft : Draft) (now : String)
    → canonical_replay
        (committed_state canonical_hash r s draft now)
        r.request_id
        (canonical_hash r.payload)
      ≡ ok (some draft.response)
unfolding canonical_replay committed_state
replay-committed canonical_hash r s draft now =
    simp (get-put, beq_self r.request_id, beq_self (canonical_hash r.payload))

pub read_of_row : (a b : Database) → a.state_row ≡ b.state_row → read_state a ≡ read_state b
unfolding read_state database_state
read_of_row a b same = rw same refl

pub read_of_stored :
    (db : Database) (s : ProjectState)
    → db.state_row ≡ some (row_of s)
    → refine_state s ≡ true
    → read_state db ≡ ok s
unfolding read_state database_state
read_of_stored db s stored accepted = rw stored (rw (parse-row_of s accepted) refl)

module _ (canonical_hash : Json → String) (r : Request) (policy : r.replay_policy ≡ canonical) where
  answered :
      (session : Session) (build : Build) (prepare : Option Prepare) (h : Handle) (db : Database)
      (s : ProjectState) (response : Json)
      → read_state db ≡ ok s
      → canonical_replay s r.request_id (canonical_hash r.payload) ≡ ok (some response)
      → mutate_body canonical_hash session r build prepare h db
        ≡ (ok (replay_outcome s response), db)
  unfolding mutate_body
  answered session build prepare h db s response readable receipt =
      rw readable (rw receipt (rw policy refl))

  answered_outcome :
      (session session' : Session) (build build' : Build) (prepare' : Option Prepare) (h' : Handle)
      (s : ProjectState) (db db' after : Database) (o : Outcome)
      → read_state db ≡ ok s
      → Answers canonical_hash session r build s db (ok o, after)
      → db'.state_row ≡ after.state_row
      → mutate_body canonical_hash session' r build' prepare' h' db'
        ≡ (ok (replay_outcome o.state o.response), db')
  answered_outcome session session' build build' prepare' h' s db db' after o readable (inl replay)
        row =
      let same : o.state ≡ s = λ i. (replay.outcome i).state in
      answered session' build' prepare' h' db' o.state o.response
        (read_of_row db' db (row ∙ λ i. (replay.unchanged i).state_row) ∙ readable ∙ λ i.
          ok (sym same i))
        (subst
          (λ t. canonical_replay t r.request_id (canonical_hash r.payload) ≡ ok (some o.response))
          (sym same) replay.receipt)
  answered_outcome session session' build build' prepare' h' s db db' after o readable (inr fresh)
        row =
      let next = committed_state canonical_hash r s fresh.draft session.updated_at in
      answered session' build' prepare' h' db' o.state o.response
        (read_of_stored db' next (row ∙ fresh.committed.stored) fresh.committed.accepted ∙ λ i.
          ok (sym fresh.state i))
        (rw (fresh.state, fresh.response)
          (replay-committed canonical_hash r s fresh.draft session.updated_at))

  -- A retry changes nothing: once a request, replayed by its receipt, has been answered while the
  -- other processes left the row alone, the same request under any later session, builder and effect,
  -- on a database with the row that was left, gets the same response and state, marked as replayed
  -- and with no effect started, and leaves the database as it is.
  pub mutate-retry :
      (session session' : Session) (build build' : Build) (prepare prepare' : Option Prepare)
      (h h' : Handle) (s : ProjectState) (db db' after : Database) (o : Outcome)
      → read_state db ≡ ok s
      → run session.during_build db ≡ db
      → ((d : Database) → (run session.during_prepare d).state_row ≡ d.state_row)
      → mutate_body canonical_hash session r build prepare h db ≡ (ok o, after)
      → db'.state_row ≡ after.state_row
      → mutate_body canonical_hash session' r build' prepare' h' db'
        ≡ (ok (replay_outcome o.state o.response), db')
  mutate-retry session session' build build' prepare prepare' h h' s db db' after o readable still
        quiet e row =
      answered_outcome session session' build build' prepare' h' s db db' after o readable
        (subst (Answers canonical_hash session r build s db) e
          (mutate_body-Answers canonical_hash session r build s prepare h db readable still quiet))
        row

-- What the guards established for the run that a request names.
pub record IsGuarded (r : Request) (s : ProjectState) (job_id : String) (fence : ℕ) : Type 0 where
  pub run : RunRecord
  pub found : get s.runs job_id ≡ some run
  pub fenced : run.fence ≡ fence
  pub active : get s.active_runs_by_task_path run.canonical_task_path ≡ some job_id

guards_hold :
    (r : Request) (s : ProjectState)
    → check_guards r s ≡ ok tt
    → (fence_expected r s ≡ true) × (job_expected r s ≡ true) × (binding_expected r s ≡ true)
unfolding check_guards
guards_hold r s h = ground arith

run_facts :
    (s : ProjectState) (job_id : String) (fence : ℕ) (found : Option RunRecord)
    → get s.runs job_id ≡ found
    → opt_eq (some fence) (run_fence found) ≡ true
    → run_is_active s job_id found ≡ true
    → (run : RunRecord) × (get s.runs job_id ≡ some run)
      × (run.fence ≡ fence)
      × (get s.active_runs_by_task_path run.canonical_task_path ≡ some job_id)
run_facts s job_id fence none e f a = cc
run_facts s job_id fence (some run) e f a = (
  run,
  e,
  ground arith,
  opt_eq→eq (get s.active_runs_by_task_path run.canonical_task_path) (some job_id) a,
)

pub check_fence :
    (r : Request) (s : ProjectState) (job_id : String) (fence : ℕ)
    → r.expected_job_id ≡ some job_id
    → r.expected_fence ≡ some fence
    → check_guards r s ≡ ok tt
    → IsGuarded r s job_id fence
unfolding fence_expected binding_expected
check_fence r s job_id fence job f h =
    let (fenced, known, active) = guards_hold r s h in
    let (run, is, fence_eq, bound) =
      run_facts s job_id fence (get s.runs job_id) refl (simp (f, job) at fenced)
        (simp job at active) in
    record { run = run; found = is; fenced = fence_eq; active = bound }
