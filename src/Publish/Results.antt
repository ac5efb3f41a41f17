-- ===== src/Publish/Results.antt =====
-- packages/publish/src/workspace-apply-adapter.ts: the result of a publication, path by path, as it is
-- observed in the target directory.
use ai_smart_flow.Shared.{
  ℕ, Bool, true, false, String, List, map, Option, none, some, not, ◌&&◌, ◌||◌, ◌==◌, text_eq,
  nat_eq, if◌then◌else◌, length, opt_eq, any, keep,
}
use ai_smart_flow.Protocol.Records.{PathStatus, PublishStatus}
use ai_smart_flow.Publish.Operations.{FilePath, path_eq, ApplyOperation, OperationType, OldKind}
use ai_smart_flow.Publish.Target.{Tree, Observed, absent, found, Conflict, observed_file}

pub record PathResult : Type 0 where
  pub path : FilePath
  pub status : PathStatus
  pub observed_hash : Option String
  pub observed_mode : Option ℕ

pub record ApplyResult : Type 0 where
  pub operation_id : String
  pub operations_hash : String
  pub status : PublishStatus
  pub paths : List PathResult

abbrev pub observed_hash : Observed → Option String
observed_hash (found h m) = some h
observed_hash _ = none

abbrev pub observed_mode : Observed → Option ℕ
observed_mode (found h m) = some m
observed_mode _ = none

abbrev pub is_delete : OperationType → Bool
is_delete OperationType.delete = true
is_delete _ = false

abbrev pub is_absent : Observed → Bool
is_absent absent = true
is_absent _ = false

abbrev pub seen_as : Option String → Option ℕ → Observed → Bool
seen_as hash mode (found h m) = opt_eq (some h) hash && opt_eq (some m) mode
seen_as hash mode _ = false

abbrev pub unchanged_old : OldKind → ApplyOperation → Observed → Bool
unchanged_old OldKind.absent o seen = is_absent seen
unchanged_old OldKind.file o seen = seen_as o.expected_old_hash o.expected_old_mode seen

abbrev pub path_status : ApplyOperation → Observed → PathStatus
path_status o seen =
    if (is_delete o.type && is_absent seen) || seen_as o.new_hash o.new_mode seen
    then PathStatus.committed
    else if unchanged_old o.expected_old_kind o seen
    then PathStatus.unresolved
    else PathStatus.conflict

abbrev pub is_committed : PathStatus → Bool
is_committed PathStatus.committed = true
is_committed _ = false

abbrev pub is_conflict : PathStatus → Bool
is_conflict PathStatus.conflict = true
is_conflict _ = false

unfoldable pub observed_status : List PathResult → PublishStatus
observed_status paths =
    let committed = length (keep (λ (p : PathResult). is_committed p.status) paths) in
    if committed == length paths
    then PublishStatus.committed
    else if not (committed == 0)
    then PublishStatus.partial
    else if any (λ (p : PathResult). is_conflict p.status) paths
    then PublishStatus.conflict
    else PublishStatus.unknown

module _ (digest : List ℕ → String) where
  unfoldable pub path_result : Tree → ApplyOperation → PathResult
  path_result tree o =
      let seen = observed_file digest tree o.path in
      record {
        path = o.path;
        status = path_status o seen;
        observed_hash = observed_hash seen;
        observed_mode = observed_mode seen;
      }

  unfoldable pub observe : String → String → List ApplyOperation → Tree → ApplyResult
  observe operation_id operations_hash operations tree =
      let paths = map (path_result tree) operations in
      record {
        operation_id = operation_id;
        operations_hash = operations_hash;
        status = observed_status paths;
        paths = paths;
      }

  abbrev pub conflict_status : List Conflict → FilePath → PathStatus
  conflict_status conflicts path =
      if any (λ (c : Conflict). c.path == path) conflicts
      then PathStatus.conflict
      else PathStatus.unresolved

  unfoldable pub conflict_result :
      String → String → List ApplyOperation → List Conflict → Tree → ApplyResult
  conflict_result operation_id operations_hash operations conflicts tree = record {
    operation_id = operation_id;
    operations_hash = operations_hash;
    status = PublishStatus.conflict;
    paths =
        map
          (λ (o : ApplyOperation). record (path_result tree o) {
            status = conflict_status conflicts o.path;
          })
          operations;
  }
