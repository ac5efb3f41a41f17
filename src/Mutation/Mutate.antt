-- ===== src/Mutation/Mutate.antt =====
-- apps/daemon/src/runtime/project-mutation-executor.ts: the body of `mutate` and the call as a whole.
use ai_smart_flow.Shared.{String, Option, none, some, if◌then◌else◌}
use ai_smart_flow.Errors.{Result, ok, err}
use ai_smart_flow.Protocol.Json.{Json}
use ai_smart_flow.State.Records.{ProjectState}
use ai_smart_flow.Store.Database.{Database, read_state}
use ai_smart_flow.Store.Leases.{acquire_mutation_lease}
use ai_smart_flow.Store.Handle.{Handle, new_handle, release}
use ai_smart_flow.Store.Schedule.{run}
use ai_smart_flow.Mutation.Executor.{
  Request, Draft, Outcome, Build, Prepare, Session, mutation_lease_wait_ms, canonical_replay,
  check_guards, mutation_context, committed_state, replay_outcome, write_draft, is_current_epoch,
  recover_write, start_effect,
}

module _ (canonical_hash : Json → String) (session : Session) (r : Request) (build : Build)
    (prepare : Option Prepare) where
  abbrev pub after_write :
      Handle → Json → Result ProjectState × Database → Result Outcome × Database
  after_write handle response (ok committed, db) =
      start_effect session prepare handle committed response db
  after_write handle response (err e, db) = (recover_write canonical_hash r e db, db)

  -- The draft was built while other processes went on.
  abbrev pub after_build :
      Handle → ProjectState → Result Draft → Database → Result Outcome × Database
  after_build handle s (err e) db = (err e, db)
  after_build handle s (ok draft) db = after_write handle draft.response (
      write_draft session.write_env handle
        (committed_state canonical_hash r s draft session.updated_at) db)

  unfoldable pub apply_change : Handle → ProjectState → Database → Result Outcome × Database
  apply_change handle s db =
      after_build handle s (build s (mutation_context r s)) (run session.during_build db)

  abbrev pub after_guards :
      Handle → ProjectState → Option Json → Database → Result (Unit {0}) → Result Outcome × Database
  after_guards handle s replay db (err e) = (err e, db)
  after_guards handle s none db (ok _) = apply_change handle s db
  after_guards handle s (some response) db (ok _) = (ok (replay_outcome s response), db)

  abbrev pub after_replay :
      Handle → ProjectState → Database → Result (Option Json) → Result Outcome × Database
  after_replay handle s db (err e) = (err e, db)
  after_replay handle s db (ok none) = after_guards handle s none db (check_guards r s)
  after_replay handle s db (ok (some response)) =
      if is_current_epoch r.replay_policy
      then after_guards handle s (some response) db (check_guards r s)
      else (ok (replay_outcome s response), db)

  abbrev pub after_read : Handle → Database → Result ProjectState → Result Outcome × Database
  after_read handle db (err e) = (err e, db)
  after_read handle db (ok s) =
      after_replay handle s db (canonical_replay s r.request_id (canonical_hash r.payload))

  -- What is done under the lease.
  unfoldable pub mutate_body : Handle → Database → Result Outcome × Database
  mutate_body handle db = after_read handle db (read_state db)

  -- `finally { await lease.release() }`: a failure of the release replaces the result.
  abbrev released :
      Result Outcome → Result (Unit {0}) × Handle × Database → Result Outcome × Database
  released result (ok _, handle, db) = (result, db)
  released result (err e, handle, db) = (err e, db)

  abbrev with_release : Handle → Result Outcome × Database → Option (Result Outcome) × Database
  with_release handle (result, db) =
      let (final, after) = released result (release session.release_env handle db) in
      (some final, after)

  abbrev after_acquire : Option (Result (Unit {0})) × Database → Option (Result Outcome) × Database
  after_acquire (none, db) = (none, db)
  after_acquire (some (err e), db) = (some (err e), db)
  after_acquire (some (ok _), db) =
      with_release (new_handle session.token) (mutate_body (new_handle session.token) db)

  -- `mutate`; `none` where the rounds listed for the acquisition end before it does.
  unfoldable pub mutate : Database → Option (Result Outcome) × Database
  mutate db =
      after_acquire
        (acquire_mutation_lease session.start session.token mutation_lease_wait_ms session.ticks db)
