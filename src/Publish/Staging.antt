-- ===== src/Publish/Staging.antt =====
-- packages/publish/src/workspace-apply-adapter.ts: the two loops of `apply`, which stage the new files
-- and put them in place. The temporary files, whose names are fresh, are a list of staged writes; the
-- directories that staging makes are part of the tree.
use ai_smart_flow.Shared.{
  ℕ, Bool, true, false, String, List, [], ◌∷◌, ◌++◌, map, Option, none, some, ◌&&◌, ◌==◌, text_eq,
  nat_eq, if◌then◌else◌, length,
}
use Prim.Native.String.{slice, len}
use text.Mathlib.Text.{starts_with}
use ai_smart_flow.Protocol.Records.{ArtifactRef}
use ai_smart_flow.Publish.Operations.{FilePath, path_eq, resolved, ApplyOperation}
use ai_smart_flow.Publish.Target.{Node, file, directory, Tree, place}
use ai_smart_flow.Publish.Results.{is_delete}

pub record Staged : Type 0 where
  pub path : FilePath
  pub bytes : List ℕ
  pub mode : ℕ

-- What the adapter does not decide: the contents of the blobs, the file operations that fail, what
-- others do to the tree while the files are staged and between the last preflight and the renames, and
-- whether the file of a result can be written: for a conflict of the second preflight, and at the end
-- of the call.
-- `entry_of` and `target_of` are how the system resolves a path in a tree: to the entry that it names,
-- after the links on the way to it, and to what that entry leads to, if it is a link itself. A path
-- without links is its own entry and target.
pub record Disk : Type 0 where
  pub read_blob : ArtifactRef → Option (List ℕ)
  pub stage_fails : FilePath → Bool
  pub commit_fails : FilePath → Bool
  pub during_staging : Tree → Tree
  pub before_commit : Tree → Tree
  pub conflict_write_fails : Bool
  pub result_write_fails : Bool
  pub entry_of : Tree → FilePath → FilePath
  pub target_of : Tree → FilePath → FilePath

abbrev pub proper_prefixes : FilePath → List FilePath
proper_prefixes [] = []
proper_prefixes (part ∷ []) = []
proper_prefixes (part ∷ next ∷ rest) =
    (part ∷ []) ∷ map (λ p. part ∷ p) (proper_prefixes (next ∷ rest))

-- `mkdir(…, { recursive: true })` for the directories of a path; it throws where something that is no
-- directory is in the way.
abbrev pub make_directory : Tree → FilePath → Option Node → Option Tree
make_directory tree path none = some (place tree path (some directory))
make_directory tree path (some directory) = some tree
make_directory tree path _ = none

abbrev pub and_then : Option Tree → (Tree → Option Tree) → Option Tree
and_then none k = none
and_then (some tree) k = k tree

abbrev pub make_directories : Disk → List FilePath → Tree → Option Tree
make_directories disk [] tree = some tree
make_directories disk (path ∷ paths) tree =
    and_then (make_directory tree (disk.target_of tree path) (tree (disk.target_of tree path)))
      (make_directories disk paths)

abbrev is_directory : Option Node → Bool
is_directory (some directory) = true
is_directory _ = false

-- The directory that an entry stands in is there; the root always is.
abbrev has_parent : Tree → List FilePath → Bool
has_parent tree [] = true
has_parent tree (parent ∷ []) = is_directory (tree parent)
has_parent tree (parent ∷ next ∷ parents) = has_parent tree (next ∷ parents)

-- `value.replace(/^sha256:/u, "")`
abbrev pub bare_hash : String → String
bare_hash value = if starts_with value "sha256:" then slice value 7 (len value) else value

module _ (digest : List ℕ → String) (disk : Disk) where
  abbrev pub blob_valid : Option (List ℕ) → ArtifactRef → String → Option (List ℕ)
  blob_valid none ref hash = none
  blob_valid (some bytes) ref hash =
      if length bytes == ref.size && digest bytes == bare_hash ref.sha256 && digest bytes == hash
      then some bytes
      else none

  abbrev pub stage_made : FilePath → List ℕ → ℕ → Tree → Option Tree → Tree × Option Staged
  stage_made path bytes mode tree none = (tree, none)
  stage_made path bytes mode tree (some made) =
      if disk.stage_fails path
      then (made, none)
      else (made, some (record { path = path; bytes = bytes; mode = mode }))

  abbrev pub stage_bytes : FilePath → ℕ → Tree → Option (List ℕ) → Tree × Option Staged
  stage_bytes path mode tree none = (tree, none)
  stage_bytes path mode tree (some bytes) =
      stage_made path bytes mode tree (make_directories disk (proper_prefixes (resolved path)) tree)

  abbrev pub stage_new :
      FilePath
      → Tree
      → Option ArtifactRef
      → Option String
      → Option ℕ
      → Option (Tree × Option Staged)
  stage_new path tree (some ref) (some hash) (some mode) =
      some (stage_bytes path mode tree (blob_valid (disk.read_blob ref) ref hash))
  stage_new path tree _ _ _ = none

  -- The first loop of `apply`: the staged writes, or `none` where it throws, and the tree.
  abbrev pub stage_rest :
      List Staged
      → Option (Tree × Option Staged)
      → Tree
      → (List Staged → Tree → Tree × Option (List Staged))
      → Tree × Option (List Staged)
  stage_rest staged none tree k = k staged tree
  stage_rest staged (some (made, none)) tree k = (made, none)
  stage_rest staged (some (made, some s)) tree k = k (staged ++ s ∷ []) made

  unfoldable pub stage : List ApplyOperation → List Staged → Tree → Tree × Option (List Staged)
  stage [] staged tree = (tree, some staged)
  stage (o ∷ os) staged tree =
      stage_rest staged (stage_new o.path tree o.blob_ref o.new_hash o.new_mode) tree (stage os)

  abbrev pub find_staged : FilePath → List Staged → Option Staged
  find_staged path [] = none
  find_staged path (s ∷ ss) = if s.path == path then some s else find_staged path ss

  -- `unlink`, which throws where there is no file or link.
  abbrev pub unlink : Tree → FilePath → Option Node → Option Tree
  unlink tree path none = none
  unlink tree path (some directory) = none
  unlink tree path _ = some (place tree path none)

  -- `rename`, which throws onto a directory, and where the directory of the entry is not there.
  abbrev pub rename : Tree → Staged → FilePath → Option Node → Option Tree
  rename tree s path (some directory) = none
  rename tree s path _ =
      if has_parent tree (proper_prefixes path)
      then some (place tree path (some (file s.bytes s.mode)))
      else none

  abbrev pub commit_staged : Tree → FilePath → Option Staged → Option Tree
  commit_staged tree path none = some tree
  commit_staged tree path (some s) = rename tree s path (tree path)

  abbrev pub commit_one : ApplyOperation → List Staged → Tree → Option Tree
  commit_one o staged tree =
      let path = disk.entry_of tree (resolved o.path) in
      if disk.commit_fails o.path
      then none
      else (if is_delete o.type
          then unlink tree path (tree path)
          else commit_staged tree path (find_staged o.path staged))

  -- The last loop of `apply`; it stops where an operation throws, and the tree stays as it is then.
  abbrev pub commit_rest : Tree → Option Tree → (Tree → Tree) → Tree
  commit_rest tree none k = tree
  commit_rest tree (some next) k = k next

  unfoldable pub commit_all : List ApplyOperation → List Staged → Tree → Tree
  commit_all [] staged tree = tree
  commit_all (o ∷ os) staged tree =
      commit_rest tree (commit_one o staged tree) (commit_all os staged)
