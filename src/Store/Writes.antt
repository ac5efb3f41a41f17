-- ===== src/Store/Writes.antt =====
-- What a write commits.
use ai_smart_flow.Shared.{
  ◌≡◌, refl, true, ◌+◌, Option, none, some, String, arith, Bool-cases, inl, inr, subst, ◌∙◌,
}
use ai_smart_flow.Errors.{Result, ok, err, >>=-eq-ok}
use ai_smart_flow.State.Records.{ProjectState}
use ai_smart_flow.State.Refine.{refine_state}
use ai_smart_flow.Store.Database.{
  StateRow, Database, Env, parse_state_row, row_of, settle, remove_stale_mutation_lease,
  insert_state, update_state,
}
use ai_smart_flow.Store.Leases.{
  write_state_with_lease, write_body, authorize, store_state, observe_row, observe_committed,
}
use ai_smart_flow.Store.Rows.{parse-row_of}

-- There is no state yet, or `next` is one version above the state that is there.
abbrev pub Follows : ProjectState → Option StateRow → Type 0
Follows next none = Unit
Follows next (some row) =
    (s : ProjectState) × (parse_state_row row ≡ ok s) × (next.state_version ≡ s.state_version + 1)

clear-state_row :
    (env : Env) (db after : Database)
    → remove_stale_mutation_lease env db ≡ ok after
    → after.state_row ≡ db.state_row
unfolding remove_stale_mutation_lease
clear-state_row env db after h = ground arith

authorize-state_row :
    (env : Env) (owner : Option String) (db after : Database)
    → authorize env owner db ≡ ok after
    → after.state_row ≡ db.state_row
unfolding authorize
authorize-state_row env none db after h = ground arith
authorize-state_row env (some token) db after h = ground arith

store_state_lem :
    (db after : Database) (next : ProjectState) (row : Option StateRow)
    → store_state db next row ≡ ok after
    → (after.state_row ≡ some (row_of next)) × Follows next row
unfolding store_state insert_state update_state
store_state_lem db after next none h = (ground arith, tt)
store_state_lem db after next (some row) h =
    let (s, parsed, rest) = >>=-eq-ok (parse_state_row row) _ h in
    (ground arith, (s, parsed, ground arith))

pub write_body_lem :
    (env : Env) (owner : Option String) (next : ProjectState) (db : Database) {done : Unit {0}}
    {after : Database}
    → write_body env owner next db ≡ ok (done, after)
    → (after.state_row ≡ some (row_of next)) × Follows next db.state_row
unfolding write_body
write_body_lem env owner next db h =
    let (cleared, e1, h1) = >>=-eq-ok (remove_stale_mutation_lease env db) _ h in
    let (authorized, e2, h2) = >>=-eq-ok (authorize env owner cleared) _ h1 in
    let (written, e3, h3) = >>=-eq-ok (store_state authorized next authorized.state_row) _ h2 in
    let (row, follows) = store_state_lem authorized written next authorized.state_row e3 in
    (
      ground arith,
      subst (Follows next)
          (authorize-state_row env owner cleared authorized e2 ∙ clear-state_row env db cleared e1)
          follows,
    )

-- What a write may come to: the state that was given is the one that is read back and stored, it is
-- accepted and follows the state found; or the write is refused and the database is as before.
abbrev pub Commits : ProjectState → Database → Result ProjectState × Database → Type 0
Commits next db (ok s, after) =
    (s ≡ next)
    × (after.state_row ≡ some (row_of next))
    × (refine_state next ≡ true)
    × Follows next db.state_row
Commits next db (err e, after) = after ≡ db

read_back-Commits :
    (next : ProjectState) (db after : Database) (r : Result ProjectState)
    → r ≡ ok next
    → after.state_row ≡ some (row_of next)
    → refine_state next ≡ true
    → Follows next db.state_row
    → Commits next db (r, after)
read_back-Commits next db after r e row accepted follows = rw e (refl, row, accepted, follows)

observed-Commits :
    (env : Env) (owner : Option String) (next : ProjectState) (db : Database)
    → refine_state next ≡ true
    → (r : Result (Unit {0} × Database)) → write_body env owner next db ≡ r
    → Commits next db (observe_committed (settle db r))
observed-Commits env owner next db accepted (err e) h = refl
observed-Commits env owner next db accepted (ok (done, after)) h =
    let (row, follows) = write_body_lem env owner next db h in
    read_back-Commits next db after (observe_row after.state_row)
      (rw row (parse-row_of next accepted)) row accepted follows

-- Without hooks, and where no other process acts between the COMMIT and the reading after it: a write
-- that succeeds has committed and returns exactly the state that it was given, which the
-- schema accepts, and whose version is one above that of the stored state if there is one; a write
-- that fails changes nothing.
pub write-Commits :
    (env : Env) (owner : Option String) (next : ProjectState) (db : Database)
    → Commits next db (write_state_with_lease env owner next db)
unfolding write_state_with_lease
write-Commits env owner next db = elim (Bool-cases (refine_state next)) [
  | inr refused ↦ rw refused refl
  | inl accepted ↦ elim (Bool-cases env.busy) [
    | inl busy ↦ simp (accepted, busy)
    | inr idle ↦
        simp (accepted, idle)
          (observed-Commits env owner next db accepted (write_body env owner next db) refl)
  ]
]
