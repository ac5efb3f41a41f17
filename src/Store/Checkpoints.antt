-- ===== src/Store/Checkpoints.antt =====
-- packages/state-store/src/state-store.ts: `writeStateWithLease` with its checkpoint hooks, and with
-- what other processes do between its COMMIT and the reading of the row after it.
use ai_smart_flow.Shared.{
  ◌≡◌, refl, ap, ◌⊎◌, inl, inr, true, String, Option, some, if◌then◌else◌, Bool-cases,
}
use ai_smart_flow.Errors.{schema, Result, ok, err, ◌>>◌}
use ai_smart_flow.State.Records.{ProjectState}
use ai_smart_flow.State.Refine.{refine_state}
use ai_smart_flow.Store.Database.{Database, Env, transaction, settle, row_of}
use ai_smart_flow.Store.Leases.{write_state_with_lease, write_body, observe_row, observe_committed}
use ai_smart_flow.Store.Writes.{Follows, write_body_lem}

-- `AtomicWriteCheckpoint`
pub data Checkpoint : Type 0 where
  after_temp_write after_file_fsync after_rename after_directory_fsync : Checkpoint

abbrev pub Hooks : Type 0
Hooks = Checkpoint → Result (Unit {0})

-- The hooks that are called after the transaction.
abbrev pub then_checkpoints :
    Hooks → Result ProjectState × Database → Result ProjectState × Database
then_checkpoints checkpoint (err e, db) = (err e, db)
then_checkpoints checkpoint (ok s, db) =
    (checkpoint Checkpoint.after_rename >> checkpoint Checkpoint.after_directory_fsync >> ok s, db)

-- The reading of the row after COMMIT, when other processes may have changed it.
abbrev pub observe_later :
    (Database → Database) → Result (Unit {0}) × Database → Result ProjectState × Database
observe_later others (err e, db) = (err e, db)
observe_later others (ok _, db) = (observe_row (others db).state_row, others db)

abbrev pub after_checkpoints :
    Hooks
    → (Database → Database)
    → Env
    → Option String
    → ProjectState
    → Database
    → Result (Unit {0})
    → Result ProjectState × Database
after_checkpoints checkpoint others env owner next db (err e) = (err e, db)
after_checkpoints checkpoint others env owner next db (ok _) =
    then_checkpoints checkpoint
      (observe_later others (transaction env (write_body env owner next) db))

-- `writeStateWithLease`
unfoldable pub write_with_checkpoints :
    Hooks
    → (Database → Database)
    → Env
    → Option String
    → ProjectState
    → Database
    → Result ProjectState × Database
write_with_checkpoints checkpoint others env owner next db =
    if refine_state next
    then after_checkpoints checkpoint others env owner next db
        (checkpoint Checkpoint.after_temp_write >> checkpoint Checkpoint.after_file_fsync)
    else (err schema, db)

-- The database holds the state, which the schema accepts and which follows the one that was stored.
pub record IsCommitted (next : ProjectState) (db committed : Database) : Type 0 where
  pub stored : committed.state_row ≡ some (row_of next)
  pub accepted : refine_state next ≡ true
  pub follows : Follows next db.state_row

-- The transaction has committed, and the other processes have had their turn.
abbrev pub Committed : (Database → Database) → ProjectState → Database → Database → Type 0
Committed others next db after =
    (committed : Database) × IsCommitted next db committed × (after ≡ others committed)

-- How a write ends: what it returns was read after its COMMIT; a write that throws has left the
-- database as it is or has committed all the same.
abbrev pub Ends :
    (Database → Database) → ProjectState → Database → Result ProjectState × Database → Type 0
Ends others next db (ok s, after) =
    Committed others next db after × (observe_row after.state_row ≡ ok s)
Ends others next db (err e, after) = (after ≡ db) ⊎ Committed others next db after

module _ (others : Database → Database) (next : ProjectState) (db after : Database)
    (c : Committed others next db after) where
  hooks-Ends :
      (first second : Result (Unit {0})) (s : ProjectState)
      → observe_row after.state_row ≡ ok s
      → Ends others next db (first >> second >> ok s, after)
  hooks-Ends (err e) second s seen = inr c
  hooks-Ends (ok _) (err e) s seen = inr c
  hooks-Ends (ok _) (ok _) s seen = (c, seen)

  observed-Ends :
      (checkpoint : Hooks) (r : Result ProjectState)
      → observe_row after.state_row ≡ r
      → Ends others next db (then_checkpoints checkpoint (r, after))
  observed-Ends checkpoint (err e) seen = inr c
  observed-Ends checkpoint (ok s) seen =
      hooks-Ends (checkpoint Checkpoint.after_rename) (checkpoint Checkpoint.after_directory_fsync)
        s seen

module _ (checkpoint : Hooks) (others : Database → Database) (env : Env) (owner : Option String)
    (next : ProjectState) (db : Database) where
  body-Ends :
      (r : Result (Unit {0} × Database))
      → refine_state next ≡ true
      → write_body env owner next db ≡ r
      → Ends others next db (then_checkpoints checkpoint (observe_later others (settle db r)))
  body-Ends (err e) accepted h = inl refl
  body-Ends (ok (done, committed)) accepted h =
      let (row, follows) = write_body_lem env owner next db h in
      observed-Ends others next db (others committed)
        (committed, record { stored = row; accepted = accepted; follows = follows }, refl)
        checkpoint (observe_row (others committed).state_row) refl

  transaction-Ends :
      (before : Result (Unit {0}))
      → refine_state next ≡ true
      → Ends others next db (after_checkpoints checkpoint others env owner next db before)
  transaction-Ends (err e) accepted = inl refl
  transaction-Ends (ok _) accepted = elim (Bool-cases env.busy) [
    | inl busy ↦ rw busy (inl refl)
    | inr idle ↦ simp idle (body-Ends (write_body env owner next db) accepted refl)
  ]

  -- However the hooks answer and whatever other processes do after the COMMIT: a write that returns
  -- a state has committed the given state, which the schema accepts and which is one version above
  -- the stored one if there was one, and returns what it read after those processes; a write that
  -- throws has left the database as it was, or has committed the given state all the same.
  pub write-Ends : Ends others next db (write_with_checkpoints checkpoint others env owner next db)
  unfolding write_with_checkpoints
  write-Ends = elim (Bool-cases (refine_state next)) [
    | inr refused ↦ rw refused (inl refl)
    | inl accepted ↦ rw accepted (
        transaction-Ends
          (checkpoint Checkpoint.after_temp_write >> checkpoint Checkpoint.after_file_fsync)
          accepted)
  ]

  module _ (silent : (c : Checkpoint) → checkpoint c ≡ ok tt)
      (quiet : (d : Database) → others d ≡ d) where
    silent_hooks :
        (r : Result ProjectState) (d : Database) → then_checkpoints checkpoint (r, d) ≡ (r, d)
    silent_hooks (err e) d = refl
    silent_hooks (ok s) d =
        rw (silent Checkpoint.after_rename, silent Checkpoint.after_directory_fsync) refl

    observed_at_once :
        (p : Result (Unit {0}) × Database)
        → then_checkpoints checkpoint (observe_later others p) ≡ observe_committed p
    observed_at_once (err e, d) = refl
    observed_at_once (ok _, d) = rw (quiet d) (silent_hooks (observe_row d.state_row) d)

    -- With silent hooks, and where no other process comes between, the write is the one that the
    -- schedules and the mutations go by.
    pub write_undisturbed :
        write_with_checkpoints checkpoint others env owner next db
        ≡ write_state_with_lease env owner next db
    unfolding write_with_checkpoints write_state_with_lease
    write_undisturbed =
        rw (silent Checkpoint.after_temp_write, silent Checkpoint.after_file_fsync)
          (ap (λ p. if refine_state next then p else (err schema, db))
            (observed_at_once (transaction env (write_body env owner next) db)))
