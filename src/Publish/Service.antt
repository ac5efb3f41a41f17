-- ===== src/Publish/Service.antt =====
-- packages/publish/src/publish-service.ts: `PublishService`. The attempt store and the adapter are
-- interfaces; their operations act on a world `W`, which holds the records and the target directory.
use ai_smart_flow.Shared.{
  ℕ, Bool, true, false, String, List, Option, none, some, ◌&&◌, ◌||◌, ◌==◌, text_eq, if◌then◌else◌,
}
use ai_smart_flow.Errors.{thrown, Result, ok, err}
use ai_smart_flow.Publish.Operations.{ApplyOperation}
use ai_smart_flow.Publish.Target.{Conflict}
use ai_smart_flow.Publish.Results.{ApplyResult}
use ai_smart_flow.Publish.Reconcile.{Reconciled, reconcile}

pub data AttemptState : Type 0 where
  prepared submitted committed conflict unknown : AttemptState

pub record PublishAttemptRecord : Type 0 where
  pub operation_id : String
  pub operations_hash : String
  pub adapter_id : String
  pub status : AttemptState
  pub result : Option ApplyResult

pub record Capabilities : Type 0 where
  pub expected_old_hash_cas : Bool
  pub atomic_batch_cas : Bool
  pub preflight_batch_write : Bool
  pub stable_operation_id : Bool
  pub query_result : Bool
  pub adapter_id : String

pub data QueryResult : Type 0 where
  pending unknown_result : QueryResult
  answered : ApplyResult → QueryResult

pub data ManualReason : Type 0 where
  adapter_unavailable atomic_cas_unavailable : ManualReason

pub data ServiceResult : Type 0 where
  published : String → ApplyResult → ServiceResult
  precheck_conflict : List Conflict → ℕ → ServiceResult
  busy : ServiceResult
  recovery_blocked : String → Option ApplyResult → ServiceResult
  manual_required : ManualReason → ServiceResult

-- An asynchronous operation on the world, which may throw.
abbrev pub Act {ℓ} : Type ℓ → Type 0 → Type ℓ
Act W A = W → Result A × W

module _ {ℓ} {W : Type ℓ} where
  -- `await`: what throws ends the function.
  abbrev pub await : {A B : Type 0} → Result A × W → (A → Act W B) → Result B × W
  await (ok a, w) k = k a w
  await (err e, w) k = (err e, w)

pub record AttemptStore {ℓ} (W : Type ℓ) : Type ℓ where
  pub acquire_lease : Option (String → Act W Bool)
  pub release_lease : Option (String → Act W (Unit {0}))
  pub get_attempt : String → Act W (Option PublishAttemptRecord)
  pub prepare : PublishAttemptRecord → Act W (Unit {0})
  pub begin_recovery : PublishAttemptRecord → Act W (Unit {0})
  pub mark_submitted_and_apply : String → Act W ApplyResult → Act W ApplyResult
  pub complete : String → AttemptState → ApplyResult → Act W (Unit {0})

pub record ApplyAdapter {ℓ} (W : Type ℓ) : Type ℓ where
  pub probe : Act W Capabilities
  pub apply : String → String → List ApplyOperation → Act W ApplyResult
  pub get_result : String → Act W QueryResult

abbrev pub supports_batch : Capabilities → Bool
supports_batch c = c.atomic_batch_cas || c.preflight_batch_write

abbrev pub supports_recovery : Capabilities → Bool
supports_recovery c =
    c.expected_old_hash_cas && supports_batch c && c.stable_operation_id && c.query_result

abbrev pub reported : String → ApplyResult → Reconciled → ServiceResult
reported operation_id result Reconciled.committed = published operation_id result
reported operation_id result Reconciled.conflict = recovery_blocked operation_id (some result)
reported operation_id result Reconciled.blocked = recovery_blocked operation_id (some result)

abbrev pub final_state : Reconciled → AttemptState
final_state Reconciled.committed = AttemptState.committed
final_state Reconciled.conflict = AttemptState.conflict
final_state Reconciled.blocked = AttemptState.unknown

-- What `recover` records of a blocked result.
abbrev pub recovered_state : Reconciled → AttemptState
recovered_state Reconciled.conflict = AttemptState.conflict
recovered_state Reconciled.committed = AttemptState.unknown
recovered_state Reconciled.blocked = AttemptState.unknown

abbrev pub is_prepared : AttemptState → Bool
is_prepared AttemptState.prepared = true
is_prepared _ = false

-- `hash_operations` is `operationsHash`, which throws where the operations are not canonical.
module _ {ℓ} {W : Type ℓ} (hash_operations : List ApplyOperation → Result String)
    (operations : List ApplyOperation) (adapter : ApplyAdapter W) where
  abbrev pub query_answer : String → String → QueryResult → ServiceResult
  query_answer operation_id hash pending = recovery_blocked operation_id none
  query_answer operation_id hash unknown_result = recovery_blocked operation_id none
  query_answer operation_id hash (answered result) =
      reported operation_id result (reconcile operation_id hash operations result)

  abbrev pub query : PublishAttemptRecord → String → Capabilities → Act W ServiceResult
  query attempt hash c w =
      if supports_recovery c && c.adapter_id == attempt.adapter_id
      then await (adapter.get_result attempt.operation_id w)
          (λ observed w. (ok (query_answer attempt.operation_id hash observed), w))
      else (ok (recovery_blocked attempt.operation_id none), w)

  abbrev pub observe_hashed : PublishAttemptRecord → Result String → Act W ServiceResult
  observe_hashed attempt (err e) w = (err e, w)
  observe_hashed attempt (ok hash) w =
      if attempt.operations_hash == hash
      then await (adapter.probe w) (query attempt hash)
      else (err (thrown "PUBLISH_ATTEMPT_NOT_FOUND_OR_MISMATCH"), w)

  -- `PublishService.observeRecovery`
  unfoldable pub observe_recovery : PublishAttemptRecord → Act W ServiceResult
  observe_recovery attempt = observe_hashed attempt (hash_operations operations)

  module _ (store : AttemptStore W) where
    abbrev pub settle_recovery : String → PublishAttemptRecord → ServiceResult → Act W ServiceResult
    settle_recovery operation_id attempt (published id result) w =
        await (store.complete operation_id AttemptState.committed result w)
          (λ u w. (ok (published id result), w))
    settle_recovery operation_id attempt (recovery_blocked id (some result)) w =
        await
          (store.complete operation_id
            (recovered_state (reconcile operation_id attempt.operations_hash operations result))
            result w)
          (λ u w. (ok (recovery_blocked id (some result)), w))
    settle_recovery operation_id attempt observed w = (ok observed, w)

    abbrev pub recover_attempt : String → Option PublishAttemptRecord → Act W ServiceResult
    recover_attempt operation_id none w = (err (thrown "PUBLISH_ATTEMPT_NOT_FOUND_OR_MISMATCH"), w)
    recover_attempt operation_id (some attempt) w =
        await (observe_recovery attempt w) (settle_recovery operation_id attempt)

    unfoldable pub recover : String → Act W ServiceResult
    recover operation_id w = await (store.get_attempt operation_id w) (recover_attempt operation_id)

    unfoldable pub finish : String → String → ApplyResult → Act W ServiceResult
    finish operation_id hash result w =
        let reconciled = reconcile operation_id hash operations result in
        await (store.complete operation_id (final_state reconciled) result w)
          (λ u w. (ok (reported operation_id result reconciled), w))
