-- ===== src/Store/Database.antt =====
-- packages/state-store/src/state-store.ts: the project state and the mutation lease in one SQLite
-- database. A function over the database answers a result and the database that it leaves. The
-- file modes, the pragmas and the re-checks of SQLite's column types are left out.
use ai_smart_flow.Shared.{
  ℕ, Bool, String, Option, none, some, ◌&&◌, ◌==◌, nat_eq, text_eq, ltb, if◌then◌else◌, opt_eq,
}
use ai_smart_flow.Errors.{StoreCode, store, schema, has_code, Result, ok, err, ◌>>=◌, ◌>>◌, ensure}
use ai_smart_flow.State.Records.{ProjectState}
use ai_smart_flow.State.Refine.{refine_state}

-- The text of a row: the canonical JSON of a state, or a text that is no such document.
pub data Document : Type 0 where
  document : ProjectState → Document
  malformed : String → Document

pub record StateRow : Type 0 where
  pub state_version : ℕ
  pub project_fence : ℕ
  pub state_json : Document
  pub updated_at : String

pub record LeaseRow : Type 0 where
  pub owner_token : String
  pub owner_pid : ℕ
  pub owner_hostname : String
  pub owner_process_start_token : String
  pub expires_at_ms : ℕ

pub record Database : Type 0 where
  pub state_row : Option StateRow
  pub lease : Option LeaseRow

-- What a process observes: its host and pid, the processes of that host, the time, and whether
-- SQLite reports the database busy.
pub record Env : Type 0 where
  pub hostname : String
  pub pid : ℕ
  pub process_exists : ℕ → Bool
  pub process_start_token : ℕ → Option String
  pub now : ℕ
  pub busy : Bool

abbrev pub mutation_lease_ttl_ms : ℕ
mutation_lease_ttl_ms = 30000

abbrev pub settle {ℓ} : {A : Type ℓ} → Database → Result (A × Database) → Result A × Database
settle db (ok (a, db')) = (ok a, db')
settle db (err e) = (err e, db)

-- BEGIN IMMEDIATE, the body, COMMIT; ROLLBACK where the body throws.
abbrev pub transaction {ℓ} :
    {A : Type ℓ} → Env → (Database → Result (A × Database)) → Database → Result A × Database
transaction env body db =
    if env.busy then (err (store StoreCode.project_locked), db) else settle db (body db)

unfoldable pub parse_state_document : Document → Result ProjectState
parse_state_document (malformed text) = err (store StoreCode.state_invalid)
parse_state_document (document s) =
    if refine_state s then ok s else err (store StoreCode.state_invalid)

unfoldable pub parse_state_row : StateRow → Result ProjectState
unfolding parse_state_document
parse_state_row row = do
  parsed ← parse_state_document row.state_json
  ensure
      (parsed.state_version == row.state_version
        && parsed.project_fence == row.project_fence
        && parsed.updated_at == row.updated_at)
      (store StoreCode.state_invalid)
  ok parsed

abbrev pub row_of : ProjectState → StateRow
row_of s = record {
  state_version = s.state_version;
  project_fence = s.project_fence;
  state_json = document s;
  updated_at = s.updated_at;
}

unfoldable pub insert_state : Database → ProjectState → Database
insert_state db s = record db { state_row = some (row_of s) }

-- UPDATE … WHERE state_version = expected, which must change one row.
unfoldable pub update_state : Database → StateRow → ProjectState → ℕ → Result Database
update_state db row s expected =
    if row.state_version == expected
    then ok (record db { state_row = some (row_of s) })
    else err (store StoreCode.state_version_mismatch)

pub data Verdict : Type 0 where
  keeps removes unverified : Verdict

-- Whether a lease is stale, as the process `env` sees it.
unfoldable pub lease_verdict : Env → LeaseRow → Verdict
lease_verdict env lease =
    if lease.owner_hostname == env.hostname
    then (if env.process_exists lease.owner_pid
        then (if ltb env.now lease.expires_at_ms
            then keeps
            else (if opt_eq (env.process_start_token lease.owner_pid)
                  (some lease.owner_process_start_token)
                then keeps
                else if opt_eq (env.process_start_token lease.owner_pid) none
                then unverified
                else removes))
        else removes)
    else if ltb env.now lease.expires_at_ms
    then keeps
    else removes

abbrev apply_verdict : Database → Verdict → Result Database
apply_verdict db keeps = ok db
apply_verdict db removes = ok (record db { lease = none })
apply_verdict db unverified = err (store StoreCode.project_locked)

abbrev remove_found : Env → Database → Option LeaseRow → Result Database
remove_found env db none = ok db
remove_found env db (some lease) = apply_verdict db (lease_verdict env lease)

unfoldable pub remove_stale_mutation_lease : Env → Database → Result Database
remove_stale_mutation_lease env db = remove_found env db db.lease

abbrev state_found : Option StateRow → Result (Option ProjectState)
state_found none = ok none
state_found (some row) = do s ← parse_state_row row; ok (some s)

unfoldable pub database_state : Database → Result (Option ProjectState)
unfolding parse_state_row
database_state db = state_found db.state_row

abbrev existing_state : Option ProjectState → Result ProjectState
existing_state none = err (store StoreCode.state_not_found)
existing_state (some s) = ok s

unfoldable pub read_state : Database → Result ProjectState
unfolding database_state
read_state db = do found ← database_state db; existing_state found

abbrev pub read_inserted :
    Database → ProjectState → Option ProjectState → Result (ProjectState × Database)
read_inserted db initial none = err (store StoreCode.state_invalid)
read_inserted db initial (some s) = ok (s, insert_state db initial)

abbrev pub initialize_row :
    Database → ProjectState → Option ProjectState → Result (ProjectState × Database)
initialize_row db initial (some existing) = ok (existing, db)
initialize_row db initial none = do
  inserted ← database_state (insert_state db initial)
  read_inserted db initial inserted

abbrev pub initialize_body : ProjectState → Database → Result (ProjectState × Database)
initialize_body initial db = do existing ← database_state db; initialize_row db initial existing

abbrev pub initialize_after :
    Env → ProjectState → Database → Result ProjectState → Result ProjectState × Database
initialize_after env initial db (ok s) = (ok s, db)
initialize_after env initial db (err e) =
    if has_code StoreCode.state_not_found e
    then (if refine_state initial
        then transaction env (initialize_body initial) db
        else (err schema, db))
    else (err e, db)

unfoldable pub initialize : Env → ProjectState → Database → Result ProjectState × Database
unfolding read_state insert_state
initialize env initial db = initialize_after env initial db (read_state db)
