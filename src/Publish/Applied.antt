-- ===== src/Publish/Applied.antt =====
-- What the results of the filesystem adapter mean, and what a repeated call of `apply` does.
use ai_smart_flow.Shared.{
  ℕ, ◌≡◌, ◌⊎◌, refl, Bool, true, false, String, List, [], ◌∷◌, Option, none, some, ◌==◌, text_eq,
  arith, All, inl, inr, Bool-cases, any, ◌||◌, put, get, get-put, beq_self, eq_iff, subst,
}
use ai_smart_flow.Errors.{Result, ok, err}
use ai_smart_flow.Protocol.Records.{PublishStatus}
use ai_smart_flow.Publish.Operations.{
  FilePath, ApplyOperation, canonical_operations, operation_valid,
}
use ai_smart_flow.Publish.Target.{Tree, Conflict, preflight_operations}
use ai_smart_flow.Publish.Results.{ApplyResult, observe, conflict_result}
use ai_smart_flow.Publish.Staging.{Disk, Staged, stage, commit_all}
use ai_smart_flow.Publish.Adapter.{
  under_file, write_observed, write_result, Target, observe_and_write, conflict_and_write,
  after_final, after_staging, after_preflight, after_existing, after_canonical, apply,
}
use ai_smart_flow.Publish.Outcome.{IsApplied, observe_committed, canonical-valid}

module _ (digest : List ℕ → String) (disk : Disk) (sorts_before : FilePath → FilePath → Bool)
    (hash_operations : List ApplyOperation → String) (operation_id operations_hash : String) where
  -- A new result: it is stored under its id, and if it is COMMITTED, the operations are carried out.
  pub record IsNewResult (os : List ApplyOperation) (result : ApplyResult) (t : Target)
      : Type 0 where
    pub stored : get t.results operation_id ≡ some result
    pub hash : result.operations_hash ≡ operations_hash
    pub applied : result.status ≡ PublishStatus.committed → All (IsApplied digest t.tree) os

  -- A failure leaves the stored results as they are.
  abbrev Wrote : List ApplyOperation → Target → Result ApplyResult × Target → Type 0
  Wrote os before (ok result, t) = IsNewResult os result t
  Wrote os before (err e, t) = t.results ≡ before.results

  module _ (os : List ApplyOperation) (valid : All (λ o. operation_valid o ≡ true) os)
      (before : Target) where
    written-Wrote :
        (fails : Bool) (t : Target) (result : ApplyResult)
        → t.results ≡ before.results
        → IsNewResult os result (record t { results = put t.results result.operation_id result })
        → Wrote os before (write_observed fails os t result)
    written-Wrote fails t result same new = elim (Bool-cases (any (under_file t.tree) os)) [
      | inl under ↦ simp under same
      | inr clear ↦ simp clear (if_written fails)
    ]
      where
        if_written : (fails : Bool) → Wrote os before (write_result fails t result)
        if_written true = same
        if_written false = new

    observed-Wrote :
        (t : Target)
        → t.results ≡ before.results
        → Wrote os before (
            observe_and_write digest disk sorts_before hash_operations operation_id operations_hash
              os t)
    unfolding observe
    observed-Wrote t same =
        written-Wrote disk.result_write_fails t
          (observe digest operation_id operations_hash os t.tree) same
          (record {
            stored = simp (get-put, beq_self operation_id);
            hash = refl;
            applied = observe_committed digest operation_id operations_hash os t.tree valid;
          })

    conflict-Wrote :
        (fails : Bool) (t : Target) (conflicts : List Conflict)
        → t.results ≡ before.results
        → Wrote os before (
            conflict_and_write digest disk sorts_before hash_operations operation_id operations_hash
              fails os conflicts t)
    unfolding conflict_result
    conflict-Wrote fails t conflicts same =
        written-Wrote fails t
          (conflict_result digest operation_id operations_hash os conflicts t.tree) same
          (record {
            stored = simp (get-put, beq_self operation_id);
            hash = refl;
            applied = λ c. cc;
          })

    final-Wrote :
        (staged : List Staged) (t : Target) (found : Result (List Conflict))
        → t.results ≡ before.results
        → Wrote os before (
            after_final digest disk sorts_before hash_operations operation_id operations_hash os
              staged t found)
    final-Wrote staged t (err e) same = observed-Wrote t same
    final-Wrote staged t (ok []) same =
        observed-Wrote
          (record t { tree = commit_all digest disk os staged (disk.before_commit t.tree) }) same
    final-Wrote staged t (ok (c ∷ cs)) same =
        elim (Bool-cases (disk.conflict_write_fails || any (under_file t.tree) os)) [
          | inl fails ↦ simp fails (observed-Wrote t same)
          | inr writes ↦ simp writes (conflict-Wrote false t (c ∷ cs) same)
        ]

    staging-Wrote :
        (t : Target) (staged : Tree × Option (List Staged))
        → t.results ≡ before.results
        → Wrote os before (
            after_staging digest disk sorts_before hash_operations operation_id operations_hash os t
              staged)
    staging-Wrote t (tree, none) same = observed-Wrote (record t { tree = tree }) same
    staging-Wrote t (tree, some staged) same =
        final-Wrote staged (record t { tree = disk.during_staging tree })
          (preflight_operations digest sorts_before (disk.during_staging tree) os) same

    preflight-Wrote :
        (found : Result (List Conflict))
        → Wrote os before (
            after_preflight digest disk sorts_before hash_operations operation_id operations_hash os
              before found)
    preflight-Wrote (err e) = refl
    preflight-Wrote (ok []) = staging-Wrote before (stage digest disk os [] before.tree) refl
    preflight-Wrote (ok (c ∷ cs)) = conflict-Wrote disk.result_write_fails before (c ∷ cs) refl

  -- The call answers with the result that is stored for its id and changes nothing, or with a new
  -- result for the canonical operations, or fails and leaves the stored results as they are.
  abbrev pub Finishes : List ApplyOperation → Target → Result ApplyResult × Target → Type 0
  Finishes given before (ok result, t) =
      ((get before.results operation_id ≡ some result)
        × (result.operations_hash ≡ operations_hash)
        × (t ≡ before))
      ⊎ ((os : List ApplyOperation) × (canonical_operations sorts_before given ≡ ok os)
          × IsNewResult os result t)
  Finishes given before (err e, t) = t.results ≡ before.results

  module _ (given : List ApplyOperation) (before : Target) where
    finish_new :
        (os : List ApplyOperation) (r : Result ApplyResult × Target)
        → canonical_operations sorts_before given ≡ ok os
        → Wrote os before r
        → Finishes given before r
    finish_new os (ok result, t) h w = inr (os, h, w)
    finish_new os (err e, t) h w = w

    existing-Finishes :
        (os : List ApplyOperation) (existing : Option ApplyResult)
        → canonical_operations sorts_before given ≡ ok os
        → get before.results operation_id ≡ existing
        → Finishes given before (
            after_existing digest disk sorts_before hash_operations operation_id operations_hash os
              before existing)
    existing-Finishes os none h e = finish_new os _ h (
        preflight-Wrote os (canonical-valid sorts_before given os h) before
          (preflight_operations digest sorts_before before.tree os))
    existing-Finishes os (some result) h e =
        elim (Bool-cases (result.operations_hash == operations_hash)) [
          | inl same ↦ simp same (inl (e, (eq_iff _ _).0 same, refl))
          | inr other ↦ simp other refl
        ]

    canonical-Finishes :
        (canonical : Result (List ApplyOperation))
        → canonical_operations sorts_before given ≡ canonical
        → Finishes given before (
            after_canonical digest disk sorts_before hash_operations operation_id operations_hash
              before canonical)
    canonical-Finishes (err e) h = refl
    canonical-Finishes (ok os) h = elim (Bool-cases (hash_operations os == operations_hash)) [
      | inl same ↦ simp same (existing-Finishes os (get before.results operation_id) h refl)
      | inr other ↦ simp other refl
    ]

    apply-Finishes :
        Finishes given before
          (apply digest disk sorts_before hash_operations operation_id operations_hash given before)
    unfolding apply
    apply-Finishes = canonical-Finishes (canonical_operations sorts_before given) refl

    -- A call that finds no stored result and returns COMMITTED has carried out every operation of the
    -- canonical list: a deleted path is not there, any other is a file with the new hash and mode.
    -- The result is stored under the id of the operation.
    pub apply_committed :
        (result : ApplyResult) (after : Target)
        → apply digest disk sorts_before hash_operations operation_id operations_hash given before
          ≡ (ok result, after)
        → get before.results operation_id ≡ none
        → result.status ≡ PublishStatus.committed
        → (os : List ApplyOperation) × (canonical_operations sorts_before given ≡ ok os)
          × All (IsApplied digest after.tree) os
          × (get after.results operation_id ≡ some result)
    apply_committed result after e none_yet committed =
        elim (subst (Finishes given before) e apply-Finishes) [
          | inl (stored, _, _) ↦ absurd (ground (arith, stored, none_yet))
          | inr (os, h, new) ↦ (os, h, new.applied committed, new.stored)
        ]

    stored_result :
        (result : ApplyResult) (after : Target)
        → Finishes given before (ok result, after)
        → (get after.results operation_id ≡ some result)
          × (result.operations_hash ≡ operations_hash)
    stored_result result after (inl (stored, hash, same)) = (rw same stored, hash)
    stored_result result after (inr (os, h, new)) = (new.stored, new.hash)

accepted_operations :
    (digest : List ℕ → String) (disk : Disk) (sorts_before : FilePath → FilePath → Bool)
    (hash_operations : List ApplyOperation → String) (operation_id operations_hash : String)
    (before : Target) (canonical : Result (List ApplyOperation)) (result : ApplyResult)
    (after : Target)
    → after_canonical digest disk sorts_before hash_operations operation_id operations_hash before
        canonical
      ≡ (ok result, after)
    → (os : List ApplyOperation) × (canonical ≡ ok os)
      × ((hash_operations os == operations_hash) ≡ true)
accepted_operations digest disk sorts_before hash_operations operation_id operations_hash before
      (err x) result after e =
    cc
accepted_operations digest disk sorts_before hash_operations operation_id operations_hash before
      (ok os) result after e =
    elim (Bool-cases (hash_operations os == operations_hash)) [
      | inl same ↦ (os, refl, same)
      | inr other ↦ let wrong = simp other at e in cc
    ]

-- A repeated call, on whatever disk, returns the result of the first one and leaves the target as it
-- is, even if the tree has been changed in between.
pub apply-again :
    (digest : List ℕ → String) (disk disk' : Disk) (sorts_before : FilePath → FilePath → Bool)
    (hash_operations : List ApplyOperation → String) (operation_id operations_hash : String)
    (given : List ApplyOperation) (before after : Target) (result : ApplyResult) (tree : Tree)
    → apply digest disk sorts_before hash_operations operation_id operations_hash given before
      ≡ (ok result, after)
    → let later = record after { tree = tree } in
      apply digest disk' sorts_before hash_operations operation_id operations_hash given later
      ≡ (ok result, later)
unfolding apply
apply-again digest disk disk' sorts_before hash_operations operation_id operations_hash given before
      after result tree e =
    let (os, canonical, hashed) =
      accepted_operations digest disk sorts_before hash_operations operation_id operations_hash
        before (canonical_operations sorts_before given) result after e in
    let (stored, same) =
      stored_result digest disk sorts_before hash_operations operation_id operations_hash given
        before result after
        (subst
          (Finishes digest disk sorts_before hash_operations operation_id operations_hash given
            before)
          e
          (apply-Finishes digest disk sorts_before hash_operations operation_id operations_hash
            given before)) in
    rw canonical (rw hashed (rw stored (rw ((eq_iff _ _).1 same) refl)))
