-- ===== src/Store/Acquisition.antt =====
-- When a lease is acquired, and how the loop of an acquisition ends.
use ai_smart_flow.Shared.{
  ℕ, ◌≡◌, ◌↔◌, ◌⊎◌, ◌≤◌, ◌+◌, refl, Bool, true, false, Option, none, some, String, List, [], ◌∷◌,
  arith, inl, inr, leb, text_eq, nat_eq,
}
use ai_smart_flow.Errors.{StoreCode, store, Result, ok, err}
use ai_smart_flow.Store.Database.{
  LeaseRow, Database, Env, removes, lease_verdict, remove_stale_mutation_lease,
}
use ai_smart_flow.Store.Leases.{
  Tick, acquire_round, acquire_body, acquire_loop, acquire_mutation_lease, owner_of, after_round,
  with_start_token,
}

-- No lease is there, or the one that is there is stale for the process.
abbrev pub IsFree : Env → Option LeaseRow → Type 0
IsFree env none = Unit
IsFree env (some lease) = lease_verdict env lease ≡ removes

-- A round acquires the lease exactly when SQLite is not busy and there is no lease that is not stale.
pub acquire_round-acquires_iff :
    (env : Env) (token start_token : String) (db : Database)
    → ((acquire_round env token start_token db).0 ≡ ok true)
      ↔ ((env.busy ≡ false) × IsFree env db.lease)
unfolding acquire_round acquire_body remove_stale_mutation_lease
acquire_round-acquires_iff env token start_token db = ground arith

acquire_round-owner :
    (env : Env) (token start_token : String) (db : Database)
    → (acquire_round env token start_token db).0 ≡ ok true
    → owner_of (acquire_round env token start_token db).1.lease ≡ some token
unfolding acquire_round acquire_body remove_stale_mutation_lease
acquire_round-owner env token start_token db h = ground arith

-- Some round reads a time at or after the deadline.
abbrev pub ReachesDeadline : ℕ → List Tick → Type 0
ReachesDeadline deadline [] = ⊥
ReachesDeadline deadline (t ∷ ts) = (deadline ≤ t.check_now) ⊎ ReachesDeadline deadline ts

after_round-ends :
    (r : Result Bool) (past : Bool) (db : Database) (later : Option (Result (Unit {0})) × Database)
    → (past ≡ true) ⊎ ((x : Result (Unit {0})) × (later.0 ≡ some x))
    → (x : Result (Unit {0})) × ((after_round r past db later).0 ≡ some x)
after_round-ends (err e) past db later h = (err e, refl)
after_round-ends (ok true) past db later h = (ok tt, refl)
after_round-ends (ok false) true db later h = (err (store StoreCode.project_locked), refl)
after_round-ends (ok false) false db later (inl p) = absurd (ground arith)
after_round-ends (ok false) false db later (inr h) = h

loop-ends :
    (token start_token : String) (deadline : ℕ) (ticks : List Tick) (db : Database)
    → ReachesDeadline deadline ticks
    → (r : Result (Unit {0})) × ((acquire_loop token start_token deadline ticks db).0 ≡ some r)
unfolding acquire_loop
loop-ends token start_token deadline [] db h = absurd h
loop-ends token start_token deadline (t ∷ ts) db (inl past) =
    after_round-ends (acquire_round t.env token start_token db).0 (leb deadline t.check_now) _ _
      (inl (ground arith))
loop-ends token start_token deadline (t ∷ ts) db (inr later) =
    after_round-ends (acquire_round t.env token start_token db).0 (leb deadline t.check_now) _ _ (
      inr (
        loop-ends token start_token deadline ts
          (t.others (acquire_round t.env token start_token db).1) later))

with_start-ends :
    (known : Option String) (k : String → Option (Result (Unit {0})) × Database) (db : Database)
    → ((st : String) → (r : Result (Unit {0})) × ((k st).0 ≡ some r))
    → (r : Result (Unit {0})) × ((with_start_token known k db).0 ≡ some r)
with_start-ends none k db h = (err (store StoreCode.state_invalid), refl)
with_start-ends (some st) k db h = h st

-- An acquisition ends, with the lease or with a failure, by the first round that reads a time at or
-- after its deadline, whatever the other processes do in between.
pub acquire-ends :
    (env : Env) (token : String) (wait_ms : ℕ) (ticks : List Tick) (db : Database)
    → ReachesDeadline (env.now + wait_ms) ticks
    → (r : Result (Unit {0})) × ((acquire_mutation_lease env token wait_ms ticks db).0 ≡ some r)
unfolding acquire_mutation_lease
acquire-ends env token wait_ms ticks db h =
    with_start-ends (env.process_start_token env.pid) _ db
      (λ st. loop-ends token st (env.now + wait_ms) ticks db h)

after_round-owner :
    (token : String) (r : Result Bool) (past : Bool) (db : Database)
    (later : Option (Result (Unit {0})) × Database)
    → (r ≡ ok true → owner_of db.lease ≡ some token)
    → (later.0 ≡ some (ok tt) → owner_of later.1.lease ≡ some token)
    → (after_round r past db later).0 ≡ some (ok tt)
    → owner_of (after_round r past db later).1.lease ≡ some token
after_round-owner token (err e) past db later h k e' = cc
after_round-owner token (ok true) past db later h k e = h refl
after_round-owner token (ok false) true db later h k e = cc
after_round-owner token (ok false) false db later h k e = k e

loop-owner :
    (token start_token : String) (deadline : ℕ) (ticks : List Tick) (db : Database)
    → (acquire_loop token start_token deadline ticks db).0 ≡ some (ok tt)
    → owner_of (acquire_loop token start_token deadline ticks db).1.lease ≡ some token
unfolding acquire_loop
loop-owner token start_token deadline [] db e = cc
loop-owner token start_token deadline (t ∷ ts) db e =
    after_round-owner token (acquire_round t.env token start_token db).0 (leb deadline t.check_now)
      (acquire_round t.env token start_token db).1
      (acquire_loop token start_token deadline ts
        (t.others (acquire_round t.env token start_token db).1))
      (acquire_round-owner t.env token start_token db)
      (loop-owner token start_token deadline ts
        (t.others (acquire_round t.env token start_token db).1))
      e

with_start-owner :
    (token : String) (known : Option String) (k : String → Option (Result (Unit {0})) × Database)
    (db : Database)
    → ((st : String) → (k st).0 ≡ some (ok tt) → owner_of (k st).1.lease ≡ some token)
    → (with_start_token known k db).0 ≡ some (ok tt)
    → owner_of (with_start_token known k db).1.lease ≡ some token
with_start-owner token none k db h e = cc
with_start-owner token (some st) k db h e = h st e

-- An acquisition that succeeds leaves the lease with its token as the owner.
pub acquire-owner :
    (env : Env) (token : String) (wait_ms : ℕ) (ticks : List Tick) (db : Database)
    → (acquire_mutation_lease env token wait_ms ticks db).0 ≡ some (ok tt)
    → owner_of (acquire_mutation_lease env token wait_ms ticks db).1.lease ≡ some token
unfolding acquire_mutation_lease
acquire-owner env token wait_ms ticks db e =
    with_start-owner token (env.process_start_token env.pid) _ db
      (λ st. loop-owner token st (env.now + wait_ms) ticks db) e
