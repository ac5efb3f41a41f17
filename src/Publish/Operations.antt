-- ===== src/Publish/Operations.antt =====
-- packages/publish/src/preflight.ts: the operations of a publication, and their canonical form. A path
-- is given by its segments (`path.split("/")`). `sorts_before` stands for `localeCompare(…) < 0`.
use ai_smart_flow.Shared.{
  ℕ, ◌≡◌, ◌↔◌, Bool, true, false, String, List, [], ◌∷◌, map, Option, not, ◌&&◌, ◌==◌, Eq, text_eq,
  keep, ◌||◌, if◌then◌else◌, any, includes, distinct, length, nat_eq, arith, eq_iff,
}
use ai_smart_flow.Errors.{thrown, Result, ok, ◌>>◌, ensure}
use ai_smart_flow.Protocol.Records.{ArtifactRef}
use ai_smart_flow.Protocol.Refine.{is_some}
use text.Mathlib.Text.{find?}

abbrev pub FilePath : Type 0
FilePath = List String

-- `resolve(root, path)`, for a path without "..": the empty segments and "." lead nowhere.
unfoldable pub resolved : FilePath → FilePath
resolved path = keep (λ segment. not (segment == "" || segment == ".")) path

abbrev pub path_beq : FilePath → FilePath → Bool
path_beq [] [] = true
path_beq [] (y ∷ ys) = false
path_beq (x ∷ xs) [] = false
path_beq (x ∷ xs) (y ∷ ys) = x == y && path_beq xs ys

pub path_beq_iff : (a b : FilePath) → (path_beq a b ≡ true) ↔ (a ≡ b)
path_beq_iff [] [] = ground arith
path_beq_iff [] (y ∷ ys) = ground arith
path_beq_iff (x ∷ xs) [] = ground arith
path_beq_iff (x ∷ xs) (y ∷ ys) = ground (arith, eq_iff x y, path_beq_iff xs ys)

instance abbrev pub path_eq : Eq FilePath
path_eq = record { beq = path_beq; beq_iff = path_beq_iff }

pub data OperationType : Type 0 where
  add modify delete : OperationType

pub data OldKind : Type 0 where
  absent file : OldKind

pub record ApplyOperation : Type 0 where
  pub path : FilePath
  pub type : OperationType
  pub expected_old_kind : OldKind
  pub expected_old_hash : Option String
  pub expected_old_mode : Option ℕ
  pub new_hash : Option String
  pub new_mode : Option ℕ
  pub blob_ref : Option ArtifactRef

abbrev is_absent : OldKind → Bool
is_absent OldKind.absent = true
is_absent OldKind.file = false

-- `path.length === 0`: one empty segment.
abbrev is_empty_path : FilePath → Bool
is_empty_path [] = true
is_empty_path (segment ∷ []) = segment == ""
is_empty_path (segment ∷ next ∷ rest) = false

-- `isAbsolute(path)`: an empty segment before the first slash.
abbrev is_absolute : FilePath → Bool
is_absolute [] = false
is_absolute (segment ∷ []) = false
is_absolute (segment ∷ next ∷ rest) = segment == ""

-- The tests on a path. The last one of the source, on the normalised path, can hold only where a
-- segment is "..", which the test before it has refused.
unfoldable pub path_safe : FilePath → Bool
path_safe path =
    not (is_empty_path path)
    && not (any (λ segment. is_some (find? segment "\0")) path)
    && not (any (λ segment. is_some (find? segment "\\")) path)
    && not (is_absolute path)
    && not (includes ".." path)

abbrev has_new : ApplyOperation → Bool
has_new o = is_some o.new_hash && is_some o.new_mode && is_some o.blob_ref

abbrev has_no_new : ApplyOperation → Bool
has_no_new o = not (is_some o.new_hash) && not (is_some o.new_mode) && not (is_some o.blob_ref)

abbrev has_old : ApplyOperation → Bool
has_old o =
    not (is_absent o.expected_old_kind)
    && is_some o.expected_old_hash
    && is_some o.expected_old_mode

abbrev has_no_old : ApplyOperation → Bool
has_no_old o =
    is_absent o.expected_old_kind
    && not (is_some o.expected_old_hash)
    && not (is_some o.expected_old_mode)

abbrev shape_of : OperationType → ApplyOperation → Bool
shape_of OperationType.add o = has_no_old o && has_new o
shape_of OperationType.modify o = has_old o && has_new o
shape_of OperationType.delete o = has_old o && has_no_new o

-- Whether the fields of an operation fit its type.
unfoldable pub operation_valid : ApplyOperation → Bool
operation_valid o = shape_of o.type o

abbrev check_operation : ApplyOperation → Result (Unit {0})
check_operation o = do
  ensure (path_safe o.path) (thrown "PUBLISH_PATH_UNSAFE")
  ensure (operation_valid o) (thrown "PUBLISH_OPERATION_INVALID")

abbrev pub check_operations : List ApplyOperation → Result (Unit {0})
check_operations [] = ok tt
check_operations (o ∷ os) = check_operation o >> check_operations os

module _ (sorts_before : FilePath → FilePath → Bool) where
  abbrev pub insert_sorted : ApplyOperation → List ApplyOperation → List ApplyOperation
  insert_sorted o [] = o ∷ []
  insert_sorted o (p ∷ ps) =
      if sorts_before p.path o.path then p ∷ insert_sorted o ps else o ∷ p ∷ ps

  abbrev pub sort_operations : List ApplyOperation → List ApplyOperation
  sort_operations [] = []
  sort_operations (o ∷ os) = insert_sorted o (sort_operations os)

  -- `canonicalOperations`
  unfoldable pub canonical_operations : List ApplyOperation → Result (List ApplyOperation)
  canonical_operations operations = do
    let sorted = sort_operations operations
    ensure (not (length sorted == 0) && distinct (map (λ (o : ApplyOperation). o.path) sorted))
        (thrown "PUBLISH_OPERATIONS_EMPTY_OR_DUPLICATE")
    check_operations sorted
    ok sorted
