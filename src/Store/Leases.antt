-- ===== src/Store/Leases.antt =====
-- packages/state-store/src/state-store.ts: acquiring, renewing and releasing the mutation lease, and
-- writing a state. A write is the one of the executor, which passes no checkpoint hooks.
use ai_smart_flow.Shared.{
  ℕ, ◌+◌, Bool, true, false, String, Option, none, some, ◌==◌, nat_eq, text_eq, leb, if◌then◌else◌,
  opt_eq, List, [], ◌∷◌,
}
use ai_smart_flow.Errors.{StoreCode, store, schema, has_code, Result, ok, err, ◌>>=◌, ◌>>◌, ensure}
use ai_smart_flow.State.Records.{ProjectState}
use ai_smart_flow.State.Refine.{refine_state}
use ai_smart_flow.Store.Database.{
  StateRow, LeaseRow, Database, Env, mutation_lease_ttl_ms, transaction, parse_state_row,
  insert_state, update_state, remove_stale_mutation_lease,
}

abbrev pub owner_of : Option LeaseRow → Option String
owner_of none = none
owner_of (some lease) = some lease.owner_token

abbrev no_lease : Option LeaseRow → Bool
no_lease none = true
no_lease (some lease) = false

abbrev new_lease : Env → String → String → LeaseRow
new_lease env token start_token = record {
  owner_token = token;
  owner_pid = env.pid;
  owner_hostname = env.hostname;
  owner_process_start_token = start_token;
  expires_at_ms = env.now + mutation_lease_ttl_ms;
}

-- The transaction of one round of `acquireMutationLease`: whether the lease was acquired.
unfoldable pub acquire_body : Env → String → String → Database → Result (Bool × Database)
acquire_body env token start_token db = do
  cleared ← remove_stale_mutation_lease env db
  if no_lease cleared.lease
      then ok (true, record cleared { lease = some (new_lease env token start_token) })
      else ok (false, cleared)

-- PROJECT_LOCKED counts as not acquired, any other failure is thrown.
abbrev round_result : Result Bool → Result Bool
round_result (ok acquired) = ok acquired
round_result (err e) = if has_code StoreCode.project_locked e then ok false else err e

unfoldable pub acquire_round : Env → String → String → Database → Result Bool × Database
acquire_round env token start_token db =
    let (result, db') = transaction env (acquire_body env token start_token) db in
    (round_result result, db')

-- One round of the loop: what is observed in the transaction, the time read after it, and what
-- other processes do to the database during the wait.
pub record Tick : Type 0 where
  pub env : Env
  pub check_now : ℕ
  pub others : Database → Database

-- What follows a round: a failure is thrown, the lease was acquired, the deadline has passed, or the
-- loop goes on.
abbrev pub after_round :
    Result Bool
    → Bool
    → Database
    → Option (Result (Unit {0})) × Database
    → Option (Result (Unit {0})) × Database
after_round (err e) past db later = (some (err e), db)
after_round (ok true) past db later = (some (ok tt), db)
after_round (ok false) true db later = (some (err (store StoreCode.project_locked)), db)
after_round (ok false) false db later = later

-- The loop; `none` where the rounds listed end before the loop does.
unfoldable pub acquire_loop :
    String → String → ℕ → List Tick → Database → Option (Result (Unit {0})) × Database
acquire_loop token start_token deadline [] db = (none, db)
acquire_loop token start_token deadline (t ∷ ts) db =
    let (result, db') = acquire_round t.env token start_token db in
    let later = acquire_loop token start_token deadline ts (t.others db') in
    after_round result (leb deadline t.check_now) db' later

abbrev pub with_start_token :
    Option String
    → (String → Option (Result (Unit {0})) × Database)
    → Database
    → Option (Result (Unit {0})) × Database
with_start_token none k db = (some (err (store StoreCode.state_invalid)), db)
with_start_token (some start_token) k db = k start_token

-- `acquireMutationLease(waitMs)` by the process `env`, for the fresh token.
unfoldable pub acquire_mutation_lease :
    Env → String → ℕ → List Tick → Database → Option (Result (Unit {0})) × Database
acquire_mutation_lease env token wait_ms ticks db =
    with_start_token (env.process_start_token env.pid)
      (λ start_token. acquire_loop token start_token (env.now + wait_ms) ticks db) db

abbrev extend_lease : Env → Option LeaseRow → Option LeaseRow
extend_lease env none = none
extend_lease env (some lease) =
    some (record lease { expires_at_ms = env.now + mutation_lease_ttl_ms })

unfoldable pub renew_body : Env → String → Database → Result (Unit {0} × Database)
renew_body env token db = do
  cleared ← remove_stale_mutation_lease env db
  ensure (opt_eq (owner_of cleared.lease) (some token)) (store StoreCode.stale_fence)
  ok (tt, record cleared { lease = extend_lease env cleared.lease })

unfoldable pub renew_mutation_lease : Env → String → Database → Result (Unit {0}) × Database
renew_mutation_lease env token db = transaction env (renew_body env token) db

abbrev delete_lease : String → Option LeaseRow → Option LeaseRow
delete_lease token none = none
delete_lease token (some lease) = if lease.owner_token == token then none else some lease

abbrev release_body : String → Database → Result (Unit {0} × Database)
release_body token db = ok (tt, record db { lease = delete_lease token db.lease })

unfoldable pub release_mutation_lease : Env → String → Database → Result (Unit {0}) × Database
release_mutation_lease env token db = transaction env (release_body token) db

-- The check of the lease in a write: a write without a lease is refused while there is one, and a
-- write under a lease renews it.
unfoldable pub authorize : Env → Option String → Database → Result Database
authorize env none db = do ensure (no_lease db.lease) (store StoreCode.project_locked); ok db
authorize env (some token) db = do
  ensure (opt_eq (owner_of db.lease) (some token)) (store StoreCode.stale_fence)
  ok (record db { lease = extend_lease env db.lease })

unfoldable pub store_state : Database → ProjectState → Option StateRow → Result Database
store_state db next none = ok (insert_state db next)
store_state db next (some row) = do
  current ← parse_state_row row
  ensure (next.state_version == current.state_version + 1) (store StoreCode.state_version_mismatch)
  update_state db row next current.state_version

-- The transaction of a write up to its COMMIT.
unfoldable pub write_body :
    Env → Option String → ProjectState → Database → Result (Unit {0} × Database)
write_body env owner next db = do
  cleared ← remove_stale_mutation_lease env db
  authorized ← authorize env owner cleared
  written ← store_state authorized next authorized.state_row
  ok (tt, written)

abbrev pub observe_row : Option StateRow → Result ProjectState
observe_row none = err (store StoreCode.state_invalid)
observe_row (some row) = parse_state_row row

-- The row is read again after COMMIT, here before another process acts.
abbrev pub observe_committed : Result (Unit {0}) × Database → Result ProjectState × Database
observe_committed (ok _, db) = (observe_row db.state_row, db)
observe_committed (err e, db) = (err e, db)

-- `writeStateWithLease` without hooks
unfoldable pub write_state_with_lease :
    Env → Option String → ProjectState → Database → Result ProjectState × Database
write_state_with_lease env owner next db =
    if refine_state next
    then observe_committed (transaction env (write_body env owner next) db)
    else (err schema, db)
