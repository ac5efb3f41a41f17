-- ===== src/Examples/Stores.antt =====
-- Runs of the state store, and its theorems at concrete inputs.
use ai_smart_flow.Shared.{
  ℕ, ◌≡◌, refl, String, none, some, List, [], ◌∷◌, inl, inr, arith, ◌≢◌, eq_iff,
}
use ai_smart_flow.Errors.{Failure, StoreCode, store, thrown, Result, ok, err}
use ai_smart_flow.Protocol.Phase.{RunPhase}
use ai_smart_flow.State.Records.{ProjectState}
use ai_smart_flow.State.Refine.{refine_state, refine_run, refine_publish_attempt}
use ai_smart_flow.Protocol.Refine.{refine_attempt, refine_publish_result}
use ai_smart_flow.Shared.{get, put, every_entry}
use ai_smart_flow.Store.Database.{
  Env, row_of, lease_verdict, remove_stale_mutation_lease, read_state, parse_state_row,
  database_state, insert_state, update_state, initialize,
}
use ai_smart_flow.Store.Leases.{
  Tick, acquire_body, acquire_round, acquire_loop, acquire_mutation_lease, renew_body,
  renew_mutation_lease, release_mutation_lease, authorize, store_state, write_body,
  write_state_with_lease, owner_of,
}
use ai_smart_flow.Store.Rows.{IsWellFormed}
use ai_smart_flow.Store.Checkpoints.{Hooks, Checkpoint, write_with_checkpoints, Ends, write-Ends}
use ai_smart_flow.Store.InTurn.{write_in_turn}
use ai_smart_flow.Store.Exclusion.{IsHeld}
use ai_smart_flow.Store.Schedule.{Operation, acquires, releases, writes, perform, run, run_held}
use ai_smart_flow.Store.Versions.{run-IsWellFormed, write_race}
use ai_smart_flow.Store.Acquisition.{acquire-ends, acquire-owner}
use ai_smart_flow.Examples.Samples.{state_in, process, lease_of, stored}

-- All that a run of the store computes with.
unfoldable pub stores : Unit {0}
unfolding refine_state refine_run refine_publish_attempt refine_attempt refine_publish_result get
    put every_entry lease_verdict remove_stale_mutation_lease read_state parse_state_row
    database_state insert_state update_state initialize acquire_body acquire_round acquire_loop
    acquire_mutation_lease renew_body renew_mutation_lease release_mutation_lease authorize
    store_state write_body write_state_with_lease perform run
stores = tt

abbrev now_ready : ProjectState
now_ready = state_in RunPhase.ready_to_publish 3

abbrev next_ready : ProjectState
next_ready = state_in RunPhase.ready_to_publish 4

-- The process dies after the COMMIT of a write.
abbrev crashing : Hooks
crashing Checkpoint.after_rename = err (thrown "simulated crash")
crashing checkpoint = ok tt

write_tests :
    ((write_state_with_lease (process 10) none next_ready (stored now_ready none)).0
      ≡ ok next_ready)
    × ((write_state_with_lease
          (process 10)
          none
          next_ready
          (stored now_ready (some (lease_of "t" 5)))).0
        ≡ err (store StoreCode.project_locked))
    × ((write_state_with_lease
          (process 10)
          (some "u")
          next_ready
          (stored now_ready (some (lease_of "t" 5)))).0
        ≡ err (store StoreCode.stale_fence))
    × ((write_state_with_lease (process 10) none now_ready (stored now_ready none)).0
        ≡ err (store StoreCode.state_version_mismatch))
unfolding stores
write_tests = (refl, refl, refl, refl)

write-Ends_example :
    Ends
      (λ d. d)
      next_ready
      (stored now_ready none)
      (write_with_checkpoints crashing
        (λ d. d)
        (process 10)
        none
        next_ready
        (stored now_ready none))
write-Ends_example =
    write-Ends crashing (λ d. d) (process 10) none next_ready (stored now_ready none)

write_in_turn_example :
    write_state_with_lease
      (process 10)
      (some "t")
      next_ready
      (stored now_ready (some (lease_of "t" 5)))
    ≡ (ok next_ready, stored next_ready (some (lease_of "t" 30010)))
write_in_turn_example =
    write_in_turn (process 10) (lease_of "t" 5) (row_of now_ready) now_ready next_ready
      (stored now_ready (some (lease_of "t" 5))) refl refl (inl (refl, refl, inr refl)) refl
      (unfold stores in refl) (unfold stores in refl) refl

t-ne-u : ◌≢◌ {A = String} "t" "u"
t-ne-u e = ground (arith, eq_iff "t" "u")

abbrev meddling : List (Env × Operation)
meddling =
    (process 10, acquires "u" "8:start")
    ∷ (process 11, writes none next_ready)
    ∷ (process 12, releases "u")
    ∷ (process 13, writes (some "u") next_ready)
    ∷ []

run_held_example :
    run meddling (stored now_ready (some (lease_of "t" 5)))
    ≡ stored now_ready (some (lease_of "t" 5))
unfolding stores
run_held_example =
    run_held now_ready (lease_of "t" 5) meddling (stored now_ready (some (lease_of "t" 5))) refl
      refl ((held, tt), ((held, tt), ((held, t-ne-u), ((held, t-ne-u), tt))))
  where
    held : {now : ℕ} → IsHeld (process now) (lease_of "t" 5)
    held = inl (refl, refl, inr refl)

run-IsWellFormed_example : IsWellFormed (run meddling (record { state_row = none; lease = none }))
run-IsWellFormed_example = run-IsWellFormed meddling (record { state_row = none; lease = none }) tt

write_race_example :
    let db =
      run meddling
        (write_state_with_lease (process 10) none next_ready (stored now_ready none)).1 in
    (e : Failure) × (write_state_with_lease (process 20) (some "t") next_ready db ≡ (err e, db))
write_race_example =
    write_race (process 10) (process 20) none (some "t") next_ready next_ready meddling
      (stored now_ready none) next_ready write_tests.0 (omega arith)

abbrev waits : List Tick
waits =
    record { env = process 10; check_now = 20; others = λ db. db }
    ∷ record { env = process 30; check_now = 40; others = λ db. record db { lease = none } }
    ∷ record { env = process 50; check_now = 60; others = λ db. db }
    ∷ []

acquire-ends_example :
    (r : Result (Unit {0})) × ((acquire_mutation_lease
        (process 10)
        "u"
        40
        waits
        (stored now_ready (some (lease_of "t" 5)))).0
      ≡ some r)
acquire-ends_example =
    acquire-ends (process 10) "u" 40 waits (stored now_ready (some (lease_of "t" 5)))
      (inr (inr (inl (omega arith))))

acquire-owner_example :
    owner_of
      (acquire_mutation_lease
        (process 10)
        "u"
        90
        waits
        (stored now_ready (some (lease_of "t" 5)))).1.lease
    ≡ some "u"
acquire-owner_example =
    acquire-owner (process 10) "u" 90 waits (stored now_ready (some (lease_of "t" 5)))
      (unfold stores in refl)
