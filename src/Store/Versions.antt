-- ===== src/Store/Versions.antt =====
-- The stored state through a history of operations, and writes based on the same version.
use ai_smart_flow.Shared.{
  ◌≡◌, ◌⊎◌, ◌≤◌, refl, true, Option, none, some, String, List, [], ◌∷◌, arith, Bool-cases, inl, inr,
  sym, subst,
}
use ai_smart_flow.Errors.{StoreCode, Failure, has_code, Result, ok, err, >>=-eq-ok}
use ai_smart_flow.State.Records.{ProjectState}
use ai_smart_flow.State.Refine.{refine_state}
use ai_smart_flow.Store.Database.{
  StateRow, Database, Env, row_of, initialize, read_state, insert_state, database_state,
  remove_stale_mutation_lease, initialize_after, initialize_body, initialize_row, read_inserted,
  settle,
}
use ai_smart_flow.Store.Leases.{
  acquire_round, acquire_body, renew_mutation_lease, renew_body, release_mutation_lease,
  write_state_with_lease,
}
use ai_smart_flow.Store.Rows.{IsWellFormed, IsWellFormedRow, parse_row-version}
use ai_smart_flow.Store.Writes.{Commits, Follows, write-Commits}
use ai_smart_flow.Store.Schedule.{
  Operation, initializes, acquires, renews, releases, writes, perform, run,
}

-- What an operation may do to the row: leave it, or write an accepted state that follows it.
abbrev pub Evolves : Option StateRow → Option StateRow → Type 0
Evolves before after =
    (after ≡ before)
    ⊎ ((s : ProjectState) × (after ≡ some (row_of s)) × (refine_state s ≡ true) × Follows s before)

acquire-state_row :
    (env : Env) (token start_token : String) (db : Database)
    → (acquire_round env token start_token db).1.state_row ≡ db.state_row
unfolding acquire_round acquire_body remove_stale_mutation_lease
acquire-state_row env token start_token db = ground arith

pub renew-state_row :
    (env : Env) (token : String) (db : Database)
    → (renew_mutation_lease env token db).1.state_row ≡ db.state_row
unfolding renew_mutation_lease renew_body remove_stale_mutation_lease
renew-state_row env token db = ground arith

release-state_row :
    (env : Env) (token : String) (db : Database)
    → (release_mutation_lease env token db).1.state_row ≡ db.state_row
unfolding release_mutation_lease
release-state_row env token db = ground arith

write_outcome-Evolves :
    (next : ProjectState) (db : Database) (r : Result ProjectState × Database)
    → Commits next db r
    → Evolves db.state_row r.1.state_row
write_outcome-Evolves next db (ok s, after) (same, row, accepted, follows) =
    inr (next, row, accepted, follows)
write_outcome-Evolves next db (err e, after) same = inl (λ i. (same i).state_row)

database_state-none : (db : Database) → database_state db ≡ ok none → db.state_row ≡ none
unfolding database_state
database_state-none db h = ground arith

inserted_row :
    (s : ProjectState) (db after : Database) (inserted : Option ProjectState) {read : ProjectState}
    → read_inserted db s inserted ≡ ok (read, after)
    → after.state_row ≡ some (row_of s)
unfolding insert_state
inserted_row s db after none h = cc
inserted_row s db after (some x) h = ground arith

inserted-Evolves :
    (s : ProjectState) (db after : Database) (existing : Option ProjectState) {read : ProjectState}
    → database_state db ≡ ok existing
    → refine_state s ≡ true
    → initialize_row db s existing ≡ ok (read, after)
    → Evolves db.state_row after.state_row
inserted-Evolves s db after (some x) found accepted h = inl (ground arith)
inserted-Evolves s db after none found accepted h =
    let (inserted, e, rest) = >>=-eq-ok (database_state (insert_state db s)) _ h in
    inr (
      s,
      inserted_row s db after inserted rest,
      accepted,
      subst (Follows s) (sym (database_state-none db found)) tt,
    )

settled-Evolves :
    (s : ProjectState) (db : Database)
    → refine_state s ≡ true
    → (r : Result (ProjectState × Database)) → initialize_body s db ≡ r
    → Evolves db.state_row (settle db r).1.state_row
settled-Evolves s db accepted (err e) h = inl refl
settled-Evolves s db accepted (ok (read, after)) h =
    let (existing, found, rest) = >>=-eq-ok (database_state db) _ h in
    inserted-Evolves s db after existing found accepted rest

initialize_after-Evolves :
    (env : Env) (s : ProjectState) (db : Database) (found : Result ProjectState)
    → Evolves db.state_row (initialize_after env s db found).1.state_row
initialize_after-Evolves env s db (ok x) = inl refl
initialize_after-Evolves env s db (err e) =
    elim (Bool-cases (has_code StoreCode.state_not_found e)) [
      | inr other ↦ simp other (inl refl)
      | inl missing ↦ elim (Bool-cases (refine_state s)) [
        | inr refused ↦ simp (missing, refused) (inl refl)
        | inl accepted ↦ elim (Bool-cases env.busy) [
          | inl busy ↦ simp (missing, accepted, busy) (inl refl)
          | inr idle ↦
              simp (missing, accepted, idle)
                (settled-Evolves s db accepted (initialize_body s db) refl)
        ]
      ]
    ]

initialize-Evolves :
    (env : Env) (s : ProjectState) (db : Database)
    → Evolves db.state_row (initialize env s db).1.state_row
unfolding initialize
initialize-Evolves env s db = initialize_after-Evolves env s db (read_state db)

perform-Evolves :
    (env : Env) (op : Operation) (db : Database)
    → Evolves db.state_row (perform env op db).state_row
unfolding perform
perform-Evolves env (initializes s) db = initialize-Evolves env s db
perform-Evolves env (acquires token start_token) db =
    inl (acquire-state_row env token start_token db)
perform-Evolves env (renews token) db = inl (renew-state_row env token db)
perform-Evolves env (releases token) db = inl (release-state_row env token db)
perform-Evolves env (writes owner next) db =
    write_outcome-Evolves next db (write_state_with_lease env owner next db)
      (write-Commits env owner next db)

Evolves-IsWellFormed :
    (before after : Database)
    → Evolves before.state_row after.state_row
    → IsWellFormed before
    → IsWellFormed after
Evolves-IsWellFormed before after (inl same) w = subst IsWellFormedRow (sym same) w
Evolves-IsWellFormed before after (inr (s, row, accepted, follows)) w =
    subst IsWellFormedRow (sym row) (record { state = s; written = refl; accepted = accepted })

-- Whatever the processes do, in any order, the row stays one that the store wrote for a state that
-- its schema accepts.
pub run-IsWellFormed :
    (ops : List (Env × Operation)) (db : Database) → IsWellFormed db → IsWellFormed (run ops db)
unfolding run
run-IsWellFormed [] db w = w
run-IsWellFormed ((env, op) ∷ ops) db w =
    run-IsWellFormed ops (perform env op db)
      (Evolves-IsWellFormed db (perform env op db) (perform-Evolves env op db) w)

-- A row stays, and its version does not fall.
abbrev pub Grows : Option StateRow → Option StateRow → Type 0
Grows none after = Unit
Grows (some r) none = ⊥
Grows (some r) (some t) = r.state_version ≤ t.state_version

Grows-trans : (a b c : Option StateRow) → Grows a b → Grows b c → Grows a c
Grows-trans none b c p q = tt
Grows-trans (some x) none c p q = absurd p
Grows-trans (some x) (some y) none p q = q
Grows-trans (some x) (some y) (some z) p q = omega arith

Grows-refl : (a : Option StateRow) → Grows a a
Grows-refl none = tt
Grows-refl (some x) = omega arith

Follows-Grows :
    (s : ProjectState) (row : Option StateRow) → Follows s row → Grows row (some (row_of s))
Follows-Grows s none f = tt
Follows-Grows s (some row) (t, parsed, next) = omega (arith, parse_row-version row t parsed)

Evolves-Grows : (a b : Option StateRow) → Evolves a b → Grows a b
Evolves-Grows a b (inl same) = subst (Grows a) (sym same) (Grows-refl a)
Evolves-Grows a b (inr (s, row, accepted, follows)) =
    subst (Grows a) (sym row) (Follows-Grows s a follows)

pub run-Grows :
    (ops : List (Env × Operation)) (db : Database) → Grows db.state_row (run ops db).state_row
unfolding run
run-Grows [] db = Grows-refl db.state_row
run-Grows ((env, op) ∷ ops) db =
    Grows-trans db.state_row (perform env op db).state_row (run ops (perform env op db)).state_row
      (Evolves-Grows db.state_row (perform env op db).state_row (perform-Evolves env op db))
      (run-Grows ops (perform env op db))

not_Follows :
    (next : ProjectState) (row : Option StateRow) (s : ProjectState)
    → Grows (some (row_of s)) row
    → next.state_version ≤ s.state_version
    → Follows next row
    → ⊥
not_Follows next none s g le f = g
not_Follows next (some row) s g le (t, parsed, e) = omega (arith, parse_row-version row t parsed)

committed_row :
    (next : ProjectState) (db : Database) (r : Result ProjectState × Database) {s : ProjectState}
    → Commits next db r
    → r.0 ≡ ok s
    → r.1.state_row ≡ some (row_of next)
committed_row next db (ok s, after) (same, row, accepted, follows) h = row
committed_row next db (err e, after) same h = cc

late_write :
    (next : ProjectState) (db : Database) (r : Result ProjectState × Database)
    → Commits next db r
    → (Follows next db.state_row → ⊥)
    → (e : Failure) × (r ≡ (err e, db))
late_write next db (ok s, after) (same, row, accepted, follows) no_follow =
    absurd (no_follow follows)
late_write next db (err e, after) same no_follow = (e, λ i. (err e, same i))

-- Optimistic concurrency: once a write of some version has been committed, a write of the same or a
-- lower version is refused and changes nothing, after any history in between.
pub write_race :
    (env env' : Env) (owner owner' : Option String) (first second : ProjectState)
    (ops : List (Env × Operation)) (db : Database) (s : ProjectState)
    → (write_state_with_lease env owner first db).0 ≡ ok s
    → second.state_version ≤ first.state_version
    → let db' = run ops (write_state_with_lease env owner first db).1 in
      (e : Failure) × (write_state_with_lease env' owner' second db' ≡ (err e, db'))
write_race env env' owner owner' first second ops db s h le =
    let after = (write_state_with_lease env owner first db).1 in
    late_write second (run ops after) (write_state_with_lease env' owner' second (run ops after))
      (write-Commits env' owner' second (run ops after))
      (not_Follows second (run ops after).state_row first
        (subst (λ row. Grows row (run ops after).state_row)
          (committed_row first db (write_state_with_lease env owner first db)
            (write-Commits env owner first db) h)
          (run-Grows ops after))
        le)
