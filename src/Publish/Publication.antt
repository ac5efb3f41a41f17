-- ===== src/Publish/Publication.antt =====
-- packages/publish/src/publish-service.ts: `PublishService.publish`. `stable_id` is
-- `stableOperationId` with the bindings of the call, `preflight` is `preflightOperations` on the active
-- workspace, `is_blank` is `trim().length === 0`; the two hooks are the optional last arguments.
use ai_smart_flow.Shared.{
  Bool, true, false, String, List, [], ◌∷◌, Option, none, some, not, ◌&&◌, ◌==◌, text_eq,
  if◌then◌else◌, length,
}
use ai_smart_flow.Errors.{Result, ok, err}
use ai_smart_flow.Publish.Operations.{ApplyOperation}
use ai_smart_flow.Publish.Target.{Conflict}
use ai_smart_flow.Publish.Results.{ApplyResult}
use ai_smart_flow.Publish.Reconcile.{reconcile}
use ai_smart_flow.Publish.Service.{
  Act, await, AttemptStore, ApplyAdapter, PublishAttemptRecord, AttemptState, Capabilities,
  ServiceResult, precheck_conflict, busy, recovery_blocked, manual_required, adapter_unavailable,
  atomic_cas_unavailable, supports_recovery, reported, is_prepared, recover, finish,
}

module _ {ℓ} {W : Type ℓ} (hash_operations : List ApplyOperation → Result String)
    (operations : List ApplyOperation) (adapter : ApplyAdapter W) (store : AttemptStore W)
    (before_apply : Act W (Unit {0})) (after_apply : ApplyResult → Act W (Unit {0})) where
  abbrev pub after_submission : String → String → Result ApplyResult × W → Result ServiceResult × W
  after_submission operation_id hash (err e, w) = (ok (recovery_blocked operation_id none), w)
  after_submission operation_id hash (ok result, w) =
      await (after_apply result w)
        (λ u. finish hash_operations operations adapter store operation_id hash result)

  abbrev pub submit : String → String → Act W ServiceResult
  submit operation_id hash w = await (before_apply w) (λ u w.
      after_submission operation_id hash (
        store.mark_submitted_and_apply operation_id (adapter.apply operation_id hash operations) w))

  abbrev pub resume : String → String → PublishAttemptRecord → Act W ServiceResult
  resume operation_id hash existing w = await (store.begin_recovery existing w) (λ u w.
      if is_prepared existing.status
      then submit operation_id hash w
      else recover hash_operations operations adapter store operation_id w)

  abbrev pub known_attempt :
      String
      → String
      → PublishAttemptRecord
      → AttemptState
      → Option ApplyResult
      → Act W ServiceResult
  known_attempt operation_id hash existing AttemptState.committed (some result) w =
      (ok (reported operation_id result (reconcile operation_id hash operations result)), w)
  known_attempt operation_id hash existing _ _ w = resume operation_id hash existing w

  abbrev pub after_attempt :
      String → String → String → Option PublishAttemptRecord → Act W ServiceResult
  after_attempt operation_id hash adapter_id none w =
      await
        (store.prepare
          (record {
            operation_id = operation_id;
            operations_hash = hash;
            adapter_id = adapter_id;
            status = AttemptState.prepared;
            result = none;
          })
          w)
        (λ u. submit operation_id hash)
  after_attempt operation_id hash adapter_id (some existing) w =
      if existing.operations_hash == hash && existing.adapter_id == adapter_id
      then known_attempt operation_id hash existing existing.status existing.result w
      else (ok (recovery_blocked operation_id none), w)

  abbrev pub release_optional : Option (String → Act W (Unit {0})) → String → Act W (Unit {0})
  release_optional none operation_id w = (ok tt, w)
  release_optional (some release) operation_id w = release operation_id w

  abbrev pub after_precheck : String → String → String → List Conflict → Act W ServiceResult
  after_precheck operation_id hash adapter_id [] w =
      await (store.get_attempt operation_id w) (after_attempt operation_id hash adapter_id)
  after_precheck operation_id hash adapter_id (c ∷ cs) w =
      await (release_optional store.release_lease operation_id w)
        (λ u w. (ok (precheck_conflict (c ∷ cs) (length operations)), w))

  module _ (preflight : List ApplyOperation → Act W (List Conflict)) where
    abbrev pub after_lease : String → String → String → Bool → Act W ServiceResult
    after_lease operation_id hash adapter_id false w = (ok busy, w)
    after_lease operation_id hash adapter_id true w =
        await (preflight operations w) (after_precheck operation_id hash adapter_id)

    abbrev pub acquire_optional : Option (String → Act W Bool) → String → Act W Bool
    acquire_optional none operation_id w = (ok true, w)
    acquire_optional (some acquire) operation_id w = acquire operation_id w

    abbrev pub after_probe : (String → Bool) → String → String → Capabilities → Act W ServiceResult
    after_probe is_blank operation_id hash c w =
        if supports_recovery c && not (is_blank c.adapter_id)
        then await (acquire_optional store.acquire_lease operation_id w)
            (after_lease operation_id hash c.adapter_id)
        else (ok (manual_required atomic_cas_unavailable), w)

module _ {ℓ} {W : Type ℓ} (hash_operations : List ApplyOperation → Result String)
    (stable_id : String → String) (preflight : List ApplyOperation → Act W (List Conflict))
    (is_blank : String → Bool) (store : AttemptStore W) (before_apply : Act W (Unit {0}))
    (after_apply : ApplyResult → Act W (Unit {0})) (operations : List ApplyOperation) where
  abbrev pub with_adapter : Option (ApplyAdapter W) → String → Act W ServiceResult
  with_adapter none hash w = (ok (manual_required adapter_unavailable), w)
  with_adapter (some adapter) hash w = await (adapter.probe w) (
      after_probe hash_operations operations adapter store before_apply after_apply preflight
        is_blank (stable_id hash) hash)

  unfoldable pub publish : Option (ApplyAdapter W) → Act W ServiceResult
  publish adapter w = await (hash_operations operations, w) (with_adapter adapter)
