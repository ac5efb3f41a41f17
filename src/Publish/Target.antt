-- ===== src/Publish/Target.antt =====
-- packages/publish/src/preflight.ts and internal-utils.ts: what is observed in the target directory,
-- and the comparison with what the operations expect. A directory tree is a function from paths,
-- relative to the root, to what lies there; `digest` stands for SHA-256.
use ai_smart_flow.Shared.{
  ℕ, ◌%◌, Bool, true, false, String, List, [], ◌∷◌, ◌++◌, Option, none, some, ◌==◌, text_eq, nat_eq,
  if◌then◌else◌, length, opt_eq,
}
use ai_smart_flow.Errors.{Result, ok, err, ◌>>=◌, thrown}
use ai_smart_flow.Publish.Operations.{
  FilePath, path_eq, resolved, ApplyOperation, OperationType, OldKind, canonical_operations,
}

-- The text of a file, as far as the program looks into it: the bytes are opaque.
pub data Node : Type 0 where
  file : List ℕ → ℕ → Node
  directory : Node
  symlink : Node

abbrev pub Tree : Type 0
Tree = FilePath → Option Node

-- A write of one entry.
abbrev pub place : Tree → FilePath → Option Node → Tree
place tree path node p = if path == p then node else tree p

pub data Observed : Type 0 where
  absent : Observed
  other : Observed
  found : String → ℕ → Observed

pub data ConflictReason : Type 0 where
  expected_absent expected_file hash_mismatch mode_mismatch unsafe_path : ConflictReason

pub record Conflict : Type 0 where
  pub path : FilePath
  pub reason : ConflictReason

-- What `lstat` finds at a segment of a path, with the answer for the segments after it. Under a
-- regular file the next call of `lstat` throws.
abbrev pub after_segment : Option Node → List String → Result Bool → Result Bool
after_segment none parts deeper = ok false
after_segment (some symlink) parts deeper = ok true
after_segment (some directory) parts deeper = deeper
after_segment (some (file bytes mode)) [] deeper = ok false
after_segment (some (file bytes mode)) (part ∷ parts) deeper = err (thrown "ENOTDIR")

-- The loop of `pathContainsSymlink`, from the directory `current` on, along a resolved path: a segment
-- that leads nowhere would only test a directory again that has passed.
abbrev pub symlink_below : Tree → FilePath → List String → Result Bool
symlink_below tree current [] = ok false
symlink_below tree current (part ∷ parts) =
    let deeper = symlink_below tree (current ++ part ∷ []) parts in
    after_segment (tree (current ++ part ∷ [])) parts deeper

unfoldable pub path_contains_symlink : Tree → FilePath → Result Bool
path_contains_symlink tree path = symlink_below tree [] (resolved path)

module _ (digest : List ℕ → String) where
  abbrev pub observe_node : Option Node → Observed
  observe_node none = absent
  observe_node (some (file bytes mode)) = found (digest bytes) (mode % 512)
  observe_node (some directory) = other
  observe_node (some symlink) = other

  -- `observedFile`. What `lstat` throws for a path under a regular file is written out by the callers:
  -- the walk of the path comes before it in a round of the preflight, and a result is only written if
  -- no path of the operations leads through such a file.
  unfoldable pub observed_file : Tree → FilePath → Observed
  observed_file tree path = observe_node (tree (resolved path))

  -- A file against the hash and the mode that it should have.
  abbrev pub compare_file : Option String → Option ℕ → Observed → Option ConflictReason
  compare_file hash mode absent = some expected_file
  compare_file hash mode other = some expected_file
  compare_file hash mode (found h m) =
      if opt_eq (some h) hash
      then (if opt_eq (some m) mode then none else some mode_mismatch)
      else some hash_mismatch

  abbrev pub compare_absent : Observed → Option ConflictReason
  compare_absent absent = none
  compare_absent other = some expected_absent
  compare_absent (found h m) = some expected_absent

  abbrev pub compare_old : OldKind → ApplyOperation → Observed → Option ConflictReason
  compare_old OldKind.absent o seen = compare_absent seen
  compare_old OldKind.file o seen = compare_file o.expected_old_hash o.expected_old_mode seen

  abbrev pub compare_new : OperationType → ApplyOperation → Observed → Option ConflictReason
  compare_new OperationType.delete o seen = compare_absent seen
  compare_new OperationType.add o seen = compare_file o.new_hash o.new_mode seen
  compare_new OperationType.modify o seen = compare_file o.new_hash o.new_mode seen

  -- One round of `preflightOperations`.
  unfoldable pub preflight_reason : Tree → ApplyOperation → Result (Option ConflictReason)
  preflight_reason tree o = do
    link ← path_contains_symlink tree o.path
    ok (
        if link
        then some unsafe_path
        else compare_old o.expected_old_kind o (observed_file tree o.path))

  -- One round of `observeTargetState`.
  unfoldable pub target_reason : Tree → ApplyOperation → Result (Option ConflictReason)
  target_reason tree o = do
    link ← path_contains_symlink tree o.path
    ok (if link then some unsafe_path else compare_new o.type o (observed_file tree o.path))

  abbrev pub add_conflict : FilePath → Option ConflictReason → List Conflict → List Conflict
  add_conflict path none conflicts = conflicts
  add_conflict path (some reason) conflicts = record { path = path; reason = reason } ∷ conflicts

  abbrev pub collect :
      (ApplyOperation → Result (Option ConflictReason))
      → List ApplyOperation
      → Result (List Conflict)
  collect reason [] = ok []
  collect reason (o ∷ os) =
      let rest = collect reason os in
      do why ← reason o; conflicts ← rest; ok (add_conflict o.path why conflicts)

  module _ (sorts_before : FilePath → FilePath → Bool) where
    unfoldable pub preflight_operations : Tree → List ApplyOperation → Result (List Conflict)
    preflight_operations tree operations = do
      canonical ← canonical_operations sorts_before operations
      collect (preflight_reason tree) canonical

    -- `observeTargetState`: whether everything is as the operations would leave it, and what is not.
    unfoldable pub observe_target_state : Tree → List ApplyOperation → Result (Bool × List Conflict)
    observe_target_state tree operations = do
      canonical ← canonical_operations sorts_before operations
      conflicts ← collect (target_reason tree) canonical
      ok (length conflicts == 0, conflicts)
