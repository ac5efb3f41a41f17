-- ===== src/Mutation/InTurn.antt =====
-- A mutation that has the lease and whose guards hold.
use ai_smart_flow.Shared.{◌≡◌, refl, true, false, String, none, some, ◌+◌}
use ai_smart_flow.Errors.{ok}
use ai_smart_flow.Protocol.Json.{Json}
use ai_smart_flow.State.Records.{ProjectState}
use ai_smart_flow.State.Refine.{refine_state}
use ai_smart_flow.Store.Database.{
  StateRow, LeaseRow, Database, Env, parse_state_row, row_of, read_state, database_state,
  mutation_lease_ttl_ms,
}
use ai_smart_flow.Store.Handle.{new_handle, assert_usable, write_state}
use ai_smart_flow.Store.Exclusion.{IsHeld}
use ai_smart_flow.Store.InTurn.{write_in_turn}
use ai_smart_flow.Store.Schedule.{run}
use ai_smart_flow.Mutation.Executor.{
  Request, Draft, Build, Session, canonical_replay, check_guards, mutation_context, committed_state,
  write_draft, start_effect, fresh_outcome,
}
use ai_smart_flow.Mutation.Mutate.{mutate_body, apply_change}

parsed_read :
    (db : Database) (row : StateRow) (s : ProjectState)
    → db.state_row ≡ some row
    → parse_state_row row ≡ ok s
    → read_state db ≡ ok s
unfolding read_state database_state
parsed_read db row s here parsed = rw (here, parsed)

written_draft :
    (env : Env) (lease : LeaseRow) (row : StateRow) (s next : ProjectState) (db : Database)
    → env.busy ≡ false
    → db.lease ≡ some lease
    → IsHeld env lease
    → db.state_row ≡ some row
    → parse_state_row row ≡ ok s
    → refine_state next ≡ true
    → next.state_version ≡ s.state_version + 1
    → write_draft env (new_handle lease.owner_token) next db ≡ (
      ok next,
      record {
        state_row = some (row_of next);
        lease = some (record lease { expires_at_ms = env.now + mutation_lease_ttl_ms });
      },
    )
unfolding write_draft write_state assert_usable
written_draft env lease row s next db idle present held here parsed accepted one_more = simp (
  accepted,
  write_in_turn env lease row s next db idle present held here parsed accepted one_more,
)

committed-version :
    (canonical_hash : Json → String) (r : Request) (s : ProjectState) (draft : Draft) (now : String)
    → (committed_state canonical_hash r s draft now).state_version ≡ s.state_version + 1
unfolding committed_state
committed-version canonical_hash r s draft now = refl

-- A mutation in turn succeeds: if the stored state can be read, the request has no receipt, its guards
-- hold, the builder gives a draft, the schema accepts the state made of it, the other processes leave
-- the database alone meanwhile, and for the write SQLite is not busy and the owner of the lease
-- alive, then a mutation without an effect stores that state and answers with it and the response.
pub mutate_in_turn :
    (canonical_hash : Json → String) (session : Session) (r : Request) (build : Build)
    (lease : LeaseRow) (row : StateRow) (s : ProjectState) (draft : Draft) (db : Database)
    → db.state_row ≡ some row
    → parse_state_row row ≡ ok s
    → canonical_replay s r.request_id (canonical_hash r.payload) ≡ ok none
    → check_guards r s ≡ ok tt
    → build s (mutation_context r s) ≡ ok draft
    → run session.during_build db ≡ db
    → session.write_env.busy ≡ false
    → db.lease ≡ some lease
    → IsHeld session.write_env lease
    → refine_state (committed_state canonical_hash r s draft session.updated_at) ≡ true
    → let next = committed_state canonical_hash r s draft session.updated_at in
      mutate_body canonical_hash session r build none (new_handle lease.owner_token) db ≡ (
        ok (fresh_outcome next draft.response false),
        record {
          state_row = some (row_of next);
          lease =
              some (record lease { expires_at_ms = session.write_env.now + mutation_lease_ttl_ms });
        },
      )
unfolding mutate_body apply_change start_effect
mutate_in_turn canonical_hash session r build lease row s draft db here parsed fresh guarded built
      still idle present held accepted =
    rw (parsed_read db row s here parsed) (
      rw fresh (
        rw guarded (
          rw (
            built,
            still,
            written_draft session.write_env lease row s
                (committed_state canonical_hash r s draft session.updated_at) db idle present held
                here parsed accepted
                (committed-version canonical_hash r s draft session.updated_at),
          ))))
