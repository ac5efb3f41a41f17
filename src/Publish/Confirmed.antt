-- ===== src/Publish/Confirmed.antt =====
-- What `reconcile` requires of a result before it calls it COMMITTED.
use ai_smart_flow.Shared.{
  ◌≡◌, refl, true, String, List, [], ◌∷◌, Option, none, some, text_eq, nat_eq, arith, All,
  opt_eq→eq, length, eq_iff,
}
use ai_smart_flow.Protocol.Refine.{publish_committed}
use ai_smart_flow.Publish.Operations.{FilePath, path_eq, ApplyOperation}
use ai_smart_flow.Publish.Results.{PathResult, ApplyResult, is_committed}
use ai_smart_flow.Publish.Reconcile.{
  Reconciled, expected_at, reconcile_path, reconcile_paths, reconcile, refused,
}

-- A path of the result as its operation asks for.
abbrev pub IsDone : List ApplyOperation → PathResult → Type 0
IsDone operations p =
    (o : ApplyOperation) × (expected_at operations p.path ≡ some o)
    × (is_committed p.status ≡ true)
    × (p.observed_hash ≡ o.new_hash)
    × (p.observed_mode ≡ o.new_mode)

refused_not : (result : ApplyResult) → refused result ≡ Reconciled.committed → ⊥
refused_not result h = ground arith

path-IsDone :
    (operations : List ApplyOperation) (result : ApplyResult) (observed : List FilePath)
    (p : PathResult) (found : Option ApplyOperation) (rest : Reconciled)
    → expected_at operations p.path ≡ found
    → reconcile_path result observed p found rest ≡ Reconciled.committed
    → IsDone operations p × (rest ≡ Reconciled.committed)
path-IsDone operations result observed p none rest e h = absurd (refused_not result h)
path-IsDone operations result observed p (some o) rest e h =
    let seen = opt_eq→eq p.observed_hash o.new_hash in
    let mode = opt_eq→eq p.observed_mode o.new_mode in
    ((o, e, ground arith, ground (arith, seen), ground (arith, mode)), ground arith)

paths-IsDone :
    (operations : List ApplyOperation) (result : ApplyResult) (observed : List FilePath)
    (paths : List PathResult)
    → reconcile_paths operations result observed paths ≡ Reconciled.committed
    → All (IsDone operations) paths × (publish_committed result.status ≡ true)
paths-IsDone operations result observed [] h = (tt, ground arith)
paths-IsDone operations result observed (p ∷ ps) h =
    let (done, rest) =
      path-IsDone operations result observed p (expected_at operations p.path)
        (reconcile_paths operations result (p.path ∷ observed) ps) refl h in
    let (others, status) = paths-IsDone operations result (p.path ∷ observed) ps rest in
    ((done, others), status)

-- A result that is what the operations of the publication ask for.
pub record IsConfirmed (operation_id hash : String) (operations : List ApplyOperation)
    (result : ApplyResult) : Type 0 where
  pub same_id : result.operation_id ≡ operation_id
  pub same_hash : result.operations_hash ≡ hash
  pub status : publish_committed result.status ≡ true
  pub as_many : length result.paths ≡ length operations
  pub done : All (IsDone operations) result.paths

pub reconcile-IsConfirmed :
    (operation_id hash : String) (operations : List ApplyOperation) (result : ApplyResult)
    → reconcile operation_id hash operations result ≡ Reconciled.committed
    → IsConfirmed operation_id hash operations result
unfolding reconcile
reconcile-IsConfirmed operation_id hash operations result h =
    let (done, status) = paths-IsDone operations result [] result.paths (ground arith) in
    record {
      same_id = ground (arith, eq_iff result.operation_id operation_id);
      same_hash = ground (arith, eq_iff result.operations_hash hash);
      status = status;
      as_many = ground arith;
      done = done;
    }
