-- ===== src/Store/Exclusion.antt =====
-- Who may use the database while a process holds the mutation lease.
use ai_smart_flow.Shared.{
  ◌≡◌, ◌≢◌, ◌↔◌, ◌⊎◌, ◌<◌, refl, true, false, none, some, String, arith, Bool-cases, inl, inr,
  eq_iff, opt_eq→eq, opt_eq_self, text_eq, opt_eq,
}
use ai_smart_flow.Errors.{StoreCode, Failure, store, schema, ok, err}
use ai_smart_flow.State.Records.{ProjectState}
use ai_smart_flow.State.Refine.{refine_state}
use ai_smart_flow.Store.Database.{
  LeaseRow, Database, Env, keeps, lease_verdict, remove_stale_mutation_lease,
}
use ai_smart_flow.Store.Leases.{
  acquire_round, acquire_body, renew_mutation_lease, renew_body, release_mutation_lease,
  write_state_with_lease, write_body, authorize, owner_of,
}

-- The owner of the lease counts as alive for the process `env`: on its own host the owner's
-- pid runs, and either the lease has not expired or that process is the very one that took it; on
-- another host the lease has not expired.
abbrev pub IsHeld : Env → LeaseRow → Type 0
IsHeld env lease =
    ((lease.owner_hostname ≡ env.hostname)
      × (env.process_exists lease.owner_pid ≡ true)
      × ((env.now < lease.expires_at_ms)
          ⊎ (env.process_start_token lease.owner_pid ≡ some lease.owner_process_start_token)))
    ⊎ ((lease.owner_hostname ≢ env.hostname) × (env.now < lease.expires_at_ms))

-- The verdict keeps a lease exactly in these cases; in the others it removes the lease, or cannot
-- verify its owner.
pub lease_verdict-keeps_iff :
    (env : Env) (lease : LeaseRow) → (lease_verdict env lease ≡ keeps) ↔ IsHeld env lease
unfolding lease_verdict
lease_verdict-keeps_iff env lease = ground (
  arith,
  eq_iff lease.owner_hostname env.hostname,
  opt_eq→eq (env.process_start_token lease.owner_pid) (some lease.owner_process_start_token),
  opt_eq_self (some lease.owner_process_start_token),
)

module _ (env : Env) (db : Database) (lease : LeaseRow) (present : db.lease ≡ some lease)
    (held : IsHeld env lease) where
  pub clear_held : remove_stale_mutation_lease env db ≡ ok db
  unfolding remove_stale_mutation_lease
  clear_held = rw (present, (lease_verdict-keeps_iff env lease).1 held) refl

  -- No round of an acquisition succeeds, whoever makes it, and none changes the database.
  pub acquire_held :
      (token start_token : String) → acquire_round env token start_token db ≡ (ok false, db)
  unfolding acquire_round acquire_body
  acquire_held token start_token = elim (Bool-cases env.busy) [
    | inl busy ↦ simp busy
    | inr idle ↦ simp (idle, clear_held, present)
  ]

  -- Who does not hold the lease can neither write, nor renew, nor release it.
  pub write_unleased_held :
      (next : ProjectState)
      → (e : Failure) × (write_state_with_lease env none next db ≡ (err e, db))
  unfolding write_state_with_lease write_body authorize
  write_unleased_held next = elim (Bool-cases (refine_state next)) [
    | inr refused ↦ (schema, simp refused)
    | inl accepted ↦ (
      store StoreCode.project_locked,
      elim (Bool-cases env.busy) [
        | inl busy ↦ simp (accepted, busy)
        | inr idle ↦ simp (accepted, idle, clear_held, present)
      ],
    )
  ]

  module _ (token : String) (other : lease.owner_token ≢ token) where
    not_owner : opt_eq (owner_of db.lease) (some token) ≡ false
    not_owner = rw present (ground (arith, eq_iff lease.owner_token token))

    pub write_other_held :
        (next : ProjectState)
        → (e : Failure) × (write_state_with_lease env (some token) next db ≡ (err e, db))
    unfolding write_state_with_lease write_body authorize
    write_other_held next = elim (Bool-cases (refine_state next)) [
      | inr refused ↦ (schema, simp refused)
      | inl accepted ↦ elim (Bool-cases env.busy) [
        | inl busy ↦ (store StoreCode.project_locked, simp (accepted, busy))
        | inr idle ↦ (store StoreCode.stale_fence, simp (accepted, idle, clear_held, not_owner))
      ]
    ]

    pub renew_other_held : (e : Failure) × (renew_mutation_lease env token db ≡ (err e, db))
    unfolding renew_mutation_lease renew_body
    renew_other_held = elim (Bool-cases env.busy) [
      | inl busy ↦ (store StoreCode.project_locked, simp busy)
      | inr idle ↦ (store StoreCode.stale_fence, simp (idle, clear_held, not_owner))
    ]

    pub release_other_held : (release_mutation_lease env token db).1 ≡ db
    unfolding release_mutation_lease
    release_other_held = ground (arith, eq_iff lease.owner_token token)
