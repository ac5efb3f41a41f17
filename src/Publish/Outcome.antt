-- ===== src/Publish/Outcome.antt =====
-- What a result of the filesystem adapter says about the directory that it leaves.
use ai_smart_flow.Shared.{
  ℕ, ◌≡◌, refl, Bool, true, String, List, [], ◌∷◌, map, some, not, ◌&&◌, ◌==◌, text_eq, nat_eq,
  arith, length, keep, All, inl, inr, Bool-cases, opt_eq→eq, length-keep-le, distinct, sym, subst,
}
use ai_smart_flow.Errors.{ok, thrown, ensure, >>=-eq-ok}
use ai_smart_flow.Protocol.Records.{PublishStatus}
use ai_smart_flow.Publish.Operations.{
  FilePath, path_eq, ApplyOperation, OperationType, canonical_operations, check_operations,
  operation_valid, sort_operations,
}
use ai_smart_flow.Publish.Target.{Tree, Observed, absent, other, found, observed_file}
use ai_smart_flow.Publish.Results.{
  PathResult, path_result, is_committed, observed_status, observe, path_status, seen_as,
}

-- The operation has been carried out: a deleted path is not there, any other is a file with the new
-- hash and mode.
abbrev pub AppliedAs : OperationType → ApplyOperation → Observed → Type 0
AppliedAs OperationType.delete o seen = seen ≡ absent
AppliedAs OperationType.add o seen =
    (h : String) × (m : ℕ) × (seen ≡ found h m) × (o.new_hash ≡ some h) × (o.new_mode ≡ some m)
AppliedAs OperationType.modify o seen =
    (h : String) × (m : ℕ) × (seen ≡ found h m) × (o.new_hash ≡ some h) × (o.new_mode ≡ some m)

abbrev pub IsApplied : (List ℕ → String) → Tree → ApplyOperation → Type 0
IsApplied digest tree o = AppliedAs o.type o (observed_file digest tree o.path)

all_kept {ℓ} :
    {A : Type ℓ} (p : A → Bool) (xs : List A)
    → length (keep p xs) ≡ length xs
    → All (λ x. p x ≡ true) xs
all_kept p [] h = tt
all_kept p (x ∷ xs) h = elim (Bool-cases (p x)) [
  | inl e ↦ (e, all_kept p xs (ground arith))
  | inr e ↦ absurd (ground (arith, length-keep-le p xs))
]

committed_paths :
    (paths : List PathResult)
    → observed_status paths ≡ PublishStatus.committed
    → All (λ (p : PathResult). is_committed p.status ≡ true) paths
unfolding observed_status
committed_paths paths h = all_kept (λ (p : PathResult). is_committed p.status) paths (ground arith)

valid_operations :
    (os : List ApplyOperation) {u : Unit {0}}
    → check_operations os ≡ ok u
    → All (λ o. operation_valid o ≡ true) os
valid_operations [] h = tt
valid_operations (o ∷ os) {u} h = (ground arith, valid_operations os {u = u} (ground arith))

module _ (o : ApplyOperation) (valid : operation_valid o ≡ true) where
  new_found :
      (h : String) (m : ℕ)
      → seen_as o.new_hash o.new_mode (found h m) ≡ true
      → (h' : String) × (m' : ℕ) × (found h m ≡ found h' m')
        × (o.new_hash ≡ some h')
        × (o.new_mode ≡ some m')
  new_found h m seen = (
    h,
    m,
    refl,
    sym (opt_eq→eq (some h) o.new_hash (ground arith)),
    sym (opt_eq→eq (some m) o.new_mode (ground arith)),
  )

  applied_seen :
      (type : OperationType) (seen : Observed)
      → o.type ≡ type
      → is_committed (path_status o seen) ≡ true
      → AppliedAs type o seen
  unfolding operation_valid
  applied_seen OperationType.delete absent e c = refl
  applied_seen OperationType.delete other e c = absurd (ground arith)
  applied_seen OperationType.delete (found h m) e c = absurd (ground arith)
  applied_seen OperationType.add absent e c = absurd (ground arith)
  applied_seen OperationType.add other e c = absurd (ground arith)
  applied_seen OperationType.add (found h m) e c = new_found h m (ground arith)
  applied_seen OperationType.modify absent e c = absurd (ground arith)
  applied_seen OperationType.modify other e c = absurd (ground arith)
  applied_seen OperationType.modify (found h m) e c = new_found h m (ground arith)

all_applied :
    (digest : List ℕ → String) (tree : Tree) (os : List ApplyOperation)
    → All (λ o. operation_valid o ≡ true) os
    → All (λ (p : PathResult). is_committed p.status ≡ true) (map (path_result digest tree) os)
    → All (IsApplied digest tree) os
unfolding path_result
all_applied digest tree [] v c = tt
all_applied digest tree (o ∷ os) v c = (
  applied_seen o v.0 o.type (observed_file digest tree o.path) refl c.0,
  all_applied digest tree os v.1 c.1,
)

-- A result that is observed as COMMITTED: every operation has been carried out in the tree.
pub observe_committed :
    (digest : List ℕ → String) (id hash : String) (os : List ApplyOperation) (tree : Tree)
    → All (λ o. operation_valid o ≡ true) os
    → (observe digest id hash os tree).status ≡ PublishStatus.committed
    → All (IsApplied digest tree) os
unfolding observe
observe_committed digest id hash os tree v c =
    all_applied digest tree os v (committed_paths (map (path_result digest tree) os) c)

pub canonical-valid :
    (sorts_before : FilePath → FilePath → Bool) (os canonical : List ApplyOperation)
    → canonical_operations sorts_before os ≡ ok canonical
    → All (λ o. operation_valid o ≡ true) canonical
unfolding canonical_operations
canonical-valid sorts_before os canonical h =
    let (_, e, rest) =
      >>=-eq-ok
        (ensure
          (not (length (sort_operations sorts_before os) == 0)
            && distinct (map (λ (o : ApplyOperation). o.path) (sort_operations sorts_before os)))
          (thrown "PUBLISH_OPERATIONS_EMPTY_OR_DUPLICATE"))
        _ h in
    let (_, checked, last) =
      >>=-eq-ok (check_operations (sort_operations sorts_before os)) _ rest in
    let same : sort_operations sorts_before os ≡ canonical = cc in
    subst (All (λ o. operation_valid o ≡ true)) same
      (valid_operations (sort_operations sorts_before os) checked)
