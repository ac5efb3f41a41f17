-- ===== src/Publish/Reconcile.antt =====
-- packages/publish/src/publish-service.ts: `reconcile`, which compares what an adapter reports with the
-- operations that it was given.
use ai_smart_flow.Shared.{
  ℕ, ◌+◌, String, List, [], ◌∷◌, Option, none, some, not, ◌&&◌, ◌||◌, ◌==◌, text_eq, nat_eq,
  if◌then◌else◌, length, opt_eq, includes,
}
use ai_smart_flow.Protocol.Refine.{publish_committed, publish_conflict}
use ai_smart_flow.Publish.Operations.{FilePath, path_eq, ApplyOperation}
use ai_smart_flow.Publish.Results.{PathResult, ApplyResult, is_committed}

pub data Reconciled : Type 0 where
  committed conflict blocked : Reconciled

abbrev pub or_earlier : Option ApplyOperation → ApplyOperation → FilePath → Option ApplyOperation
or_earlier (some later) o path = some later
or_earlier none o path = if o.path == path then some o else none

-- `expected.get(path)`: the last operation with the path.
abbrev pub expected_at : List ApplyOperation → FilePath → Option ApplyOperation
expected_at [] path = none
expected_at (o ∷ os) path = or_earlier (expected_at os path) o path

abbrev pub counted : Option ApplyOperation → ℕ → ℕ
counted none size = size + 1
counted (some later) size = size

-- `expected.size`
abbrev pub expected_size : List ApplyOperation → ℕ
expected_size [] = 0
expected_size (o ∷ os) = counted (expected_at os o.path) (expected_size os)

-- What the loop says where it gives up on a path.
abbrev pub refused : ApplyResult → Reconciled
refused result = if publish_conflict result.status then conflict else blocked

-- The loop over the paths of the result, and the test behind it; `observed` are the paths so far.
abbrev pub reconcile_path :
    ApplyResult → List FilePath → PathResult → Option ApplyOperation → Reconciled → Reconciled
reconcile_path result observed path none rest = refused result
reconcile_path result observed path (some o) rest =
    if includes path.path observed || not (is_committed path.status)
    then refused result
    else if not (opt_eq path.observed_hash o.new_hash) || not (opt_eq path.observed_mode o.new_mode)
    then blocked
    else rest

abbrev pub reconcile_paths :
    List ApplyOperation → ApplyResult → List FilePath → List PathResult → Reconciled
reconcile_paths operations result observed [] =
    if length observed == expected_size operations && publish_committed result.status
    then committed
    else blocked
reconcile_paths operations result observed (path ∷ paths) =
    reconcile_path result observed path (expected_at operations path.path)
      (reconcile_paths operations result (path.path ∷ observed) paths)

unfoldable pub reconcile : String → String → List ApplyOperation → ApplyResult → Reconciled
reconcile operation_id expected_operations_hash operations result =
    if not (result.operation_id == operation_id)
      || not (result.operations_hash == expected_operations_hash)
    then blocked
    else if not (length result.paths == length operations)
    then blocked
    else reconcile_paths operations result [] result.paths
