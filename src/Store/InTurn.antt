-- ===== src/Store/InTurn.antt =====
-- The write of a process that holds the lease.
use ai_smart_flow.Shared.{◌≡◌, true, false, ◌+◌, nat_eq, text_eq, some, arith, opt_eq_self}
use ai_smart_flow.Errors.{ok}
use ai_smart_flow.State.Records.{ProjectState}
use ai_smart_flow.State.Refine.{refine_state}
use ai_smart_flow.Store.Database.{
  StateRow, LeaseRow, Database, Env, parse_state_row, row_of, update_state, mutation_lease_ttl_ms,
}
use ai_smart_flow.Store.Leases.{write_state_with_lease, write_body, authorize, store_state}
use ai_smart_flow.Store.Rows.{parse-row_of, parse_row-version}
use ai_smart_flow.Store.Exclusion.{IsHeld, clear_held}

stored_next :
    (db : Database) (row : StateRow) (current next : ProjectState)
    → parse_state_row row ≡ ok current
    → next.state_version ≡ current.state_version + 1
    → store_state db next (some row) ≡ ok (record db { state_row = some (row_of next) })
unfolding store_state update_state
stored_next db row current next parsed one_more =
    ground (arith, parsed, one_more, parse_row-version row current parsed)

-- A write in turn succeeds: if SQLite is not busy, the lease is there and its owner alive, the schema
-- accepts the state and its version is one above that of the stored one, then a write under the token
-- of the lease returns the state, stores it and extends the lease.
pub write_in_turn :
    (env : Env) (lease : LeaseRow) (row : StateRow) (current next : ProjectState) (db : Database)
    → env.busy ≡ false
    → db.lease ≡ some lease
    → IsHeld env lease
    → db.state_row ≡ some row
    → parse_state_row row ≡ ok current
    → refine_state next ≡ true
    → next.state_version ≡ current.state_version + 1
    → write_state_with_lease env (some lease.owner_token) next db ≡ (
      ok next,
      record {
        state_row = some (row_of next);
        lease = some (record lease { expires_at_ms = env.now + mutation_lease_ttl_ms });
      },
    )
unfolding write_state_with_lease write_body authorize
write_in_turn env lease row current next db idle present held here parsed accepted one_more = simp (
  accepted,
  idle,
  clear_held env db lease present held,
  present,
  opt_eq_self (some lease.owner_token),
  here,
  stored_next
      (record {
        state_row = some row;
        lease = some (record lease { expires_at_ms = env.now + mutation_lease_ttl_ms });
      })
      row current next parsed one_more,
  parse-row_of next accepted,
)
