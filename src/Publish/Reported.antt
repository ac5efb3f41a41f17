-- ===== src/Publish/Reported.antt =====
-- What `PublishService` requires before it calls a publication COMMITTED.
use ai_smart_flow.Shared.{
  ◌≡◌, refl, Bool, true, false, String, List, [], ◌∷◌, Option, none, some, ◌==◌, text_eq, nat_eq,
  inl, inr, Bool-cases, not, ◌&&◌, subst,
}
use ai_smart_flow.Errors.{Result, ok, err}
use ai_smart_flow.Publish.Operations.{path_eq, ApplyOperation}
use ai_smart_flow.Publish.Target.{Conflict}
use ai_smart_flow.Publish.Results.{ApplyResult}
use ai_smart_flow.Publish.Reconcile.{Reconciled, reconcile}
use ai_smart_flow.Publish.Confirmed.{IsConfirmed, reconcile-IsConfirmed}
use ai_smart_flow.Publish.Service.{
  Act, await, AttemptStore, ApplyAdapter, PublishAttemptRecord, AttemptState, Capabilities,
  ServiceResult, precheck_conflict, busy, recovery_blocked, manual_required, published, QueryResult,
  pending, unknown_result, answered, reported, query_answer, query, observe_recovery,
  settle_recovery, recover_attempt, recover, finish, supports_recovery, is_prepared,
}
use ai_smart_flow.Publish.Publication.{
  after_submission, submit, resume, known_attempt, after_attempt, after_precheck, release_optional,
  after_lease, acquire_optional, after_probe, publish,
}

module _ {ℓ} {W : Type ℓ} (operations : List ApplyOperation) (hash : String) where
  -- An answer that says COMMITTED has a confirmed result.
  abbrev Confirms : Result ServiceResult × W → Type 0
  Confirms (ok (published id result), w) = IsConfirmed id hash operations result
  Confirms _ = Unit

  await-Confirms :
      {A : Type 0} (r : Result A × W) (k : A → Act W ServiceResult)
      → ((a : A) (w : W) → Confirms (k a w))
      → Confirms (await r k)
  await-Confirms (ok a, w) k f = f a w
  await-Confirms (err e, w) k f = tt

  reported-Confirms :
      (id : String) (result : ApplyResult) (r : Reconciled) (w : W)
      → reconcile id hash operations result ≡ r
      → Confirms (ok (reported id result r), w)
  reported-Confirms id result Reconciled.committed w h =
      reconcile-IsConfirmed id hash operations result h
  reported-Confirms id result Reconciled.conflict w h = tt
  reported-Confirms id result Reconciled.blocked w h = tt

  module _ (hash_operations : List ApplyOperation → Result String)
      (hashed : hash_operations operations ≡ ok hash) (adapter : ApplyAdapter W)
      (store : AttemptStore W) where
    query-Confirms :
        (attempt : PublishAttemptRecord) (c : Capabilities) (w : W)
        → Confirms (query hash_operations operations adapter attempt hash c w)
    query-Confirms attempt c w =
        elim (Bool-cases (supports_recovery c && c.adapter_id == attempt.adapter_id)) [
          | inr other ↦ simp other tt
          | inl same ↦
              simp same
                (await-Confirms (adapter.get_result attempt.operation_id w) _ (λ q w'. answer q w'))
        ]
      where
        answer :
            (q : QueryResult) (w' : W)
            → Confirms (
              ok (query_answer hash_operations operations adapter attempt.operation_id hash q),
              w',
            )
        answer pending w' = tt
        answer unknown_result w' = tt
        answer (answered result) w' = reported-Confirms attempt.operation_id result _ w' refl

    observe-Confirms :
        (attempt : PublishAttemptRecord) (w : W)
        → Confirms (observe_recovery hash_operations operations adapter attempt w)
    unfolding observe_recovery
    observe-Confirms attempt w = rw hashed (elim (Bool-cases (attempt.operations_hash == hash)) [
      | inr other ↦ simp other tt
      | inl same ↦ simp same (await-Confirms (adapter.probe w) _ (query-Confirms attempt))
    ])

    settle-Confirms :
        (id : String) (attempt : PublishAttemptRecord) (r : Result ServiceResult × W)
        → Confirms r
        → Confirms (await r (settle_recovery hash_operations operations adapter store id attempt))
    settle-Confirms id attempt (ok (published id' result), w) h =
        await-Confirms (store.complete id AttemptState.committed result w) _ (λ u w'. h)
    settle-Confirms id attempt (ok (recovery_blocked id' (some result)), w) h =
        await-Confirms (store.complete id _ result w) _ (λ u w'. tt)
    settle-Confirms id attempt (ok (recovery_blocked id' none), w) h = tt
    settle-Confirms id attempt (ok (precheck_conflict cs n), w) h = tt
    settle-Confirms id attempt (ok busy, w) h = tt
    settle-Confirms id attempt (ok (manual_required reason), w) h = tt
    settle-Confirms id attempt (err e, w) h = tt

    attempt-Confirms :
        (id : String) (found : Option PublishAttemptRecord) (w : W)
        → Confirms (recover_attempt hash_operations operations adapter store id found w)
    attempt-Confirms id none w = tt
    attempt-Confirms id (some attempt) w =
        settle-Confirms id attempt (observe_recovery hash_operations operations adapter attempt w)
          (observe-Confirms attempt w)

    recover-Confirms :
        (id : String) (w : W) → Confirms (recover hash_operations operations adapter store id w)
    unfolding recover
    recover-Confirms id w = await-Confirms (store.get_attempt id w) _ (attempt-Confirms id)

    finish-Confirms :
        (id : String) (result : ApplyResult) (w : W)
        → Confirms (finish hash_operations operations adapter store id hash result w)
    unfolding finish
    finish-Confirms id result w =
        await-Confirms (store.complete id _ result w) _
          (λ u w'. reported-Confirms id result (reconcile id hash operations result) w' refl)

    module _ (before_apply : Act W (Unit {0})) (after_apply : ApplyResult → Act W (Unit {0})) where
      submission-Confirms :
          (id : String) (r : Result ApplyResult × W)
          → Confirms (
              after_submission hash_operations operations adapter store before_apply after_apply id
                hash r)
      submission-Confirms id (err e, w) = tt
      submission-Confirms id (ok result, w) =
          await-Confirms (after_apply result w) _ (λ u. finish-Confirms id result)

      submit-Confirms :
          (id : String) (w : W)
          → Confirms
              (submit hash_operations operations adapter store before_apply after_apply id hash w)
      submit-Confirms id w = await-Confirms (before_apply w) _ (λ u w'.
          submission-Confirms id
            (store.mark_submitted_and_apply id (adapter.apply id hash operations) w'))

      resume-Confirms :
          (id : String) (existing : PublishAttemptRecord) (w : W)
          → Confirms (
              resume hash_operations operations adapter store before_apply after_apply id hash
                existing w)
      resume-Confirms id existing w = await-Confirms (store.begin_recovery existing w) _ (λ u w'.
          elim (Bool-cases (is_prepared existing.status)) [
            | inl fresh ↦ simp fresh (submit-Confirms id w')
            | inr later ↦ simp later (recover-Confirms id w')
          ])

      known-Confirms :
          (id : String) (existing : PublishAttemptRecord) (status : AttemptState)
          (result : Option ApplyResult) (w : W)
          → Confirms (
              known_attempt hash_operations operations adapter store before_apply after_apply id
                hash existing status result w)
      known-Confirms id existing AttemptState.committed (some result) w =
          reported-Confirms id result (reconcile id hash operations result) w refl
      known-Confirms id existing AttemptState.committed none w = resume-Confirms id existing w
      known-Confirms id existing AttemptState.prepared result w = resume-Confirms id existing w
      known-Confirms id existing AttemptState.submitted result w = resume-Confirms id existing w
      known-Confirms id existing AttemptState.conflict result w = resume-Confirms id existing w
      known-Confirms id existing AttemptState.unknown result w = resume-Confirms id existing w

      found-Confirms :
          (id adapter_id : String) (found : Option PublishAttemptRecord) (w : W)
          → Confirms (
              after_attempt hash_operations operations adapter store before_apply after_apply id
                hash adapter_id found w)
      found-Confirms id adapter_id none w =
          await-Confirms (store.prepare _ w) _ (λ u. submit-Confirms id)
      found-Confirms id adapter_id (some existing) w =
          elim (Bool-cases
            (existing.operations_hash == hash && existing.adapter_id == adapter_id)) [
              | inl same ↦ simp same (known-Confirms id existing existing.status existing.result w)
              | inr other ↦ simp other tt
            ]

      precheck-Confirms :
          (id adapter_id : String) (conflicts : List Conflict) (w : W)
          → Confirms (
              after_precheck hash_operations operations adapter store before_apply after_apply id
                hash adapter_id conflicts w)
      precheck-Confirms id adapter_id [] w =
          await-Confirms (store.get_attempt id w) _ (found-Confirms id adapter_id)
      precheck-Confirms id adapter_id (c ∷ cs) w =
          await-Confirms
            (release_optional hash_operations operations adapter store before_apply after_apply
              store.release_lease id w)
            _ (λ u w'. tt)

      module _ (preflight : List ApplyOperation → Act W (List Conflict))
          (is_blank : String → Bool) where
        lease-Confirms :
            (id adapter_id : String) (acquired : Bool) (w : W)
            → Confirms (
                after_lease hash_operations operations adapter store before_apply after_apply
                  preflight id hash adapter_id acquired w)
        lease-Confirms id adapter_id false w = tt
        lease-Confirms id adapter_id true w =
            await-Confirms (preflight operations w) _ (precheck-Confirms id adapter_id)

        probe-Confirms :
            (id : String) (c : Capabilities) (w : W)
            → Confirms (
                after_probe hash_operations operations adapter store before_apply after_apply
                  preflight is_blank id hash c w)
        probe-Confirms id c w =
            elim (Bool-cases (supports_recovery c && not (is_blank c.adapter_id))) [
              | inr other ↦ simp other tt
              | inl able ↦ simp able (
                  await-Confirms
                    (acquire_optional hash_operations operations adapter store before_apply
                      after_apply preflight store.acquire_lease id w)
                    _ (lease-Confirms id c.adapter_id))
            ]

-- A publication that the service calls COMMITTED, whichever store and adapter it runs with and
-- whether it applies the operations now, finds them applied or recovers an earlier attempt: the result
-- carries the ids of the publication and the status COMMITTED, it has as many paths as there are
-- operations, and each path has the hash and the mode that the last operation for it asks for.
pub publish-IsConfirmed {ℓ} :
    {W : Type ℓ} (hash_operations : List ApplyOperation → Result String)
    (stable_id : String → String) (preflight : List ApplyOperation → Act W (List Conflict))
    (is_blank : String → Bool) (store : AttemptStore W) (before_apply : Act W (Unit {0}))
    (after_apply : ApplyResult → Act W (Unit {0})) (operations : List ApplyOperation)
    (adapter : ApplyAdapter W) (w w' : W) (hash id : String) (result : ApplyResult)
    → hash_operations operations ≡ ok hash
    → publish hash_operations stable_id preflight is_blank store before_apply after_apply operations
        (some adapter)
        w
      ≡ (ok (published id result), w')
    → IsConfirmed id hash operations result
unfolding publish
publish-IsConfirmed hash_operations stable_id preflight is_blank store before_apply after_apply
      operations adapter w w' hash id result hashed h =
    subst (Confirms operations hash) h (
      rw hashed (
        await-Confirms operations hash (adapter.probe w) _ (
          probe-Confirms operations hash hash_operations hashed adapter store before_apply
            after_apply preflight is_blank (stable_id hash))))
