-- ===== src/Publish/Adapter.antt =====
-- packages/publish/src/workspace-apply-adapter.ts: `FilesystemWorkspaceApplyAdapter`, with a result
-- directory configured. The state is the target directory and the stored results. An operation id is
-- taken to have the form that `stableOperationId` gives it.
use ai_smart_flow.Shared.{
  any, ◌||◌, ℕ, Bool, true, false, String, List, [], ◌∷◌, Option, none, some, ◌==◌, text_eq, nat_eq,
  if◌then◌else◌, Dict, get, put,
}
use ai_smart_flow.Errors.{thrown, Result, ok, err}
use ai_smart_flow.Publish.Operations.{
  FilePath, path_eq, resolved, ApplyOperation, canonical_operations,
}
use ai_smart_flow.Publish.Target.{Node, file, Tree, Conflict, preflight_operations}
use ai_smart_flow.Publish.Results.{ApplyResult, observe, conflict_result}
use ai_smart_flow.Publish.Staging.{Disk, Staged, proper_prefixes, stage, commit_all}

pub record Target : Type 0 where
  pub tree : Tree
  pub results : Dict ApplyResult

-- `writeResult`, which throws where the file cannot be written.
abbrev pub write_result : Bool → Target → ApplyResult → Result ApplyResult × Target
write_result true t result = (err (thrown "RESULT_NOT_WRITTEN"), t)
write_result false t result =
    (ok result, record t { results = put t.results result.operation_id result })

abbrev is_file : Option Node → Bool
is_file (some (file bytes mode)) = true
is_file _ = false

-- The path of the operation leads through a regular file, where `lstat` throws.
abbrev pub under_file : Tree → ApplyOperation → Bool
under_file tree o = any (λ p. is_file (tree p)) (proper_prefixes (resolved o.path))

-- A result is written when every path of the operations could be observed for it.
abbrev pub write_observed :
    Bool → List ApplyOperation → Target → ApplyResult → Result ApplyResult × Target
write_observed fails operations t result =
    if any (under_file t.tree) operations
    then (err (thrown "ENOTDIR"), t)
    else write_result fails t result

module _ (digest : List ℕ → String) (disk : Disk) (sorts_before : FilePath → FilePath → Bool)
    (hash_operations : List ApplyOperation → String) (operation_id operations_hash : String) where
  abbrev pub observe_and_write : List ApplyOperation → Target → Result ApplyResult × Target
  observe_and_write operations t =
      write_observed disk.result_write_fails operations t
        (observe digest operation_id operations_hash operations t.tree)

  abbrev pub conflict_and_write :
      Bool → List ApplyOperation → List Conflict → Target → Result ApplyResult × Target
  conflict_and_write fails operations conflicts t =
      write_observed fails operations t
        (conflict_result digest operation_id operations_hash operations conflicts t.tree)

  -- After the staging: the second preflight, and the renames.
  abbrev pub after_final :
      List ApplyOperation
      → List Staged
      → Target
      → Result (List Conflict)
      → Result ApplyResult × Target
  after_final operations staged t (err e) = observe_and_write operations t
  after_final operations staged t (ok []) =
      observe_and_write operations
        (record t { tree = commit_all digest disk operations staged (disk.before_commit t.tree) })
  after_final operations staged t (ok (c ∷ cs)) =
      if disk.conflict_write_fails || any (under_file t.tree) operations
      then observe_and_write operations t
      else conflict_and_write false operations (c ∷ cs) t

  abbrev pub after_staging :
      List ApplyOperation → Target → Tree × Option (List Staged) → Result ApplyResult × Target
  after_staging operations t (tree, none) = observe_and_write operations (record t { tree = tree })
  after_staging operations t (tree, some staged) =
      let now = record t { tree = disk.during_staging tree } in
      after_final operations staged now
        (preflight_operations digest sorts_before now.tree operations)

  abbrev pub after_preflight :
      List ApplyOperation → Target → Result (List Conflict) → Result ApplyResult × Target
  after_preflight operations t (err e) = (err e, t)
  after_preflight operations t (ok []) =
      after_staging operations t (stage digest disk operations [] t.tree)
  after_preflight operations t (ok (c ∷ cs)) =
      conflict_and_write disk.result_write_fails operations (c ∷ cs) t

  abbrev pub after_existing :
      List ApplyOperation → Target → Option ApplyResult → Result ApplyResult × Target
  after_existing operations t (some existing) =
      if existing.operations_hash == operations_hash
      then (ok existing, t)
      else (err (thrown "PUBLISH_OPERATION_ID_REUSED"), t)
  after_existing operations t none =
      after_preflight operations t (preflight_operations digest sorts_before t.tree operations)

  abbrev pub after_canonical : Target → Result (List ApplyOperation) → Result ApplyResult × Target
  after_canonical t (err e) = (err e, t)
  after_canonical t (ok operations) =
      if hash_operations operations == operations_hash
      then after_existing operations t (get t.results operation_id)
      else (err (thrown "PUBLISH_OPERATIONS_HASH_MISMATCH"), t)

  -- `apply`, where the result directory is configured.
  unfoldable pub apply : List ApplyOperation → Target → Result ApplyResult × Target
  apply operations t = after_canonical t (canonical_operations sorts_before operations)
