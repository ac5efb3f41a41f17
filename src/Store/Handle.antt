-- ===== src/Store/Handle.antt =====
-- packages/state-store/src/state-store.ts: `SqliteMutationLease`, the object through which a caller
-- uses the lease that it holds.
use ai_smart_flow.Shared.{Bool, true, false, String, Option, none, some, if◌then◌else◌}
use ai_smart_flow.Errors.{StoreCode, Failure, store, Result, ok, err, ◌>>◌}
use ai_smart_flow.State.Records.{ProjectState}
use ai_smart_flow.Store.Database.{Database, Env}
use ai_smart_flow.Store.Leases.{
  renew_mutation_lease, release_mutation_lease, write_state_with_lease,
}

pub record Handle : Type 0 where
  pub token : String
  pub released : Bool
  pub renewal_failure : Option Failure

abbrev pub new_handle : String → Handle
new_handle token = record { token = token; released = false; renewal_failure = none }

abbrev renewal_usable : Option Failure → Result (Unit {0})
renewal_usable none = ok tt
renewal_usable (some e) = err e

unfoldable pub assert_usable : Handle → Result (Unit {0})
assert_usable h =
    if h.released then err (store StoreCode.stale_fence) else renewal_usable h.renewal_failure

abbrev pub record_renewal :
    Handle → Result (Unit {0}) × Database → Result (Unit {0}) × Handle × Database
record_renewal h (ok _, db) = (ok tt, h, db)
record_renewal h (err e, db) = (err e, record h { renewal_failure = some e }, db)

-- `renew`: a failure is remembered. The renewal timer makes the same call and drops its result.
unfoldable pub renew : Env → Handle → Database → Result (Unit {0}) × Handle × Database
renew env h db = record_renewal h (renew_mutation_lease env h.token db)

abbrev pub renew_then_check :
    Result (Unit {0}) × Handle × Database → Result (Unit {0}) × Handle × Database
renew_then_check (result, h, db) = (result >> assert_usable h, h, db)

abbrev pub owned_usable :
    Env → Handle → Database → Result (Unit {0}) → Result (Unit {0}) × Handle × Database
owned_usable env h db (err e) = (err e, h, db)
owned_usable env h db (ok _) = renew_then_check (renew env h db)

unfoldable pub assert_owned : Env → Handle → Database → Result (Unit {0}) × Handle × Database
assert_owned env h db = owned_usable env h db (assert_usable h)

abbrev pub check_again : Handle → Result ProjectState × Database → Result ProjectState × Database
check_again h (ok s, db) = (assert_usable h >> ok s, db)
check_again h (err e, db) = (err e, db)

abbrev pub write_usable :
    Env → Handle → ProjectState → Database → Result (Unit {0}) → Result ProjectState × Database
write_usable env h next db (err e) = (err e, db)
write_usable env h next db (ok _) =
    check_again h (write_state_with_lease env (some h.token) next db)

unfoldable pub write_state : Env → Handle → ProjectState → Database → Result ProjectState × Database
write_state env h next db = write_usable env h next db (assert_usable h)

unfoldable pub release : Env → Handle → Database → Result (Unit {0}) × Handle × Database
release env h db =
    if h.released
    then (ok tt, h, db)
    else (let (result, db') = release_mutation_lease env h.token db in
        (result, record h { released = true }, db'))
