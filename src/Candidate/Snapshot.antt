-- ===== src/Candidate/Snapshot.antt =====
-- packages/workspace/src/git-snapshot.ts: snapshots and their verification. A path is given by its
-- segments. `digest` stands for SHA-256 of a text, `snapshot_digest` for that of the canonical text of
-- a snapshot, `byte_length` and `is_date` for the platform's functions, `path_before` for `<` on paths.
use Prim.Native.String.{[] as end_of_text, ◌∷◌ as char_then}
use ai_smart_flow.Shared.{
  ℕ, suc, Bool, true, false, String, List, [], ◌∷◌, map, Option, none, some, not, ◌&&◌, ◌||◌, ◌==◌,
  text_eq, nat_eq, if◌then◌else◌, any, every, distinct, leb,
}
use ai_smart_flow.Protocol.Refine.{is_some}
use ai_smart_flow.Publish.Operations.{FilePath, path_eq}
use text.Mathlib.Text.{find?}

pub data SnapshotKind : Type 0 where
  run_baseline run_result : SnapshotKind

pub data FileMode : Type 0 where
  regular executable symlink : FileMode

pub data EntryKind : Type 0 where
  file symlink : EntryKind

pub record GitSnapshotEntry : Type 0 where
  pub path : FilePath
  pub kind : EntryKind
  pub mode : FileMode
  pub blob_id : String
  pub sha256 : String
  pub size : ℕ
  pub target : Option String

pub record GitWorkspaceSnapshot : Type 0 where
  pub repository_id : String
  pub active_worktree_root : String
  pub snapshot_kind : SnapshotKind
  pub tree_id : String
  pub snapshot_hash : String
  pub included_path_policy_hash : String
  pub entries : List GitSnapshotEntry
  pub created_at : String

abbrev pub is_result : SnapshotKind → Bool
is_result SnapshotKind.run_baseline = false
is_result SnapshotKind.run_result = true

abbrev pub is_symlink_mode : FileMode → Bool
is_symlink_mode FileMode.symlink = true
is_symlink_mode _ = false

abbrev pub is_executable : FileMode → Bool
is_executable FileMode.executable = true
is_executable _ = false

-- `path === ".smartflow/tasks" || path.startsWith(".smartflow/tasks/")`
unfoldable pub is_control_plane_path : FilePath → Bool
is_control_plane_path (first ∷ second ∷ rest) = first == ".smartflow" && second == "tasks"
is_control_plane_path _ = false

-- `/^[a-f0-9]{low,high}$/u`
abbrev hex_count : String → Option ℕ
hex_count end_of_text = some 0
hex_count (char_then c cs) =
    let rest = hex_count cs in
    if is_some (find? "0123456789abcdef" (char_then c end_of_text))
    then elim rest [ none ↦ none | some n ↦ some (suc n) ]
    else none

abbrev in_range : ℕ → ℕ → Option ℕ → Bool
in_range low high none = false
in_range low high (some n) = leb low n && leb n high

unfoldable pub is_hex : ℕ → ℕ → String → Bool
is_hex low high s = in_range low high (hex_count s)

-- `safeRelativePath`
unfoldable pub safe_relative_path : FilePath → Bool
safe_relative_path [] = false
safe_relative_path (part ∷ parts) =
    not (any (λ p. is_some (find? p "\\")) (part ∷ parts))
    && not (any (λ p. p == "" || p == "." || p == "..") (part ∷ parts))

module _ (path_before : FilePath → FilePath → Bool) where
  -- No path comes before its predecessor: sorting changes nothing.
  abbrev ascending : List FilePath → Bool
  ascending [] = true
  ascending (p ∷ []) = true
  ascending (p ∷ q ∷ rest) = not (path_before q p) && ascending (q ∷ rest)

  module _ (digest : String → String) (byte_length : String → ℕ) (is_date : String → Bool)
      (snapshot_digest : GitWorkspaceSnapshot → String) where
    abbrev pub link_matches : GitSnapshotEntry → Option String → Bool
    link_matches entry none = false
    link_matches entry (some target) =
        entry.size == byte_length target && entry.sha256 == digest target

    abbrev pub kind_matches : GitSnapshotEntry → EntryKind → Bool
    kind_matches entry EntryKind.file =
        not (is_symlink_mode entry.mode) && not (is_some entry.target)
    kind_matches entry EntryKind.symlink =
        is_symlink_mode entry.mode && link_matches entry entry.target

    -- The checks of one entry.
    unfoldable pub verify_entry : GitSnapshotEntry → Bool
    verify_entry entry =
        is_hex 40 64 entry.blob_id && is_hex 64 64 entry.sha256 && kind_matches entry entry.kind

    -- `verifyGitWorkspaceSnapshot`
    unfoldable pub verify_snapshot : GitWorkspaceSnapshot → Bool
    verify_snapshot snapshot =
        let paths = map (λ (e : GitSnapshotEntry). e.path) snapshot.entries in
        snapshot.active_worktree_root == "."
        && is_hex 64 64 snapshot.repository_id
        && is_hex 40 64 snapshot.tree_id
        && is_hex 64 64 snapshot.snapshot_hash
        && is_hex 64 64 snapshot.included_path_policy_hash
        && is_date snapshot.created_at
        && distinct paths
        && every safe_relative_path paths
        && ascending paths
        && every verify_entry snapshot.entries
        && snapshot.snapshot_hash == snapshot_digest snapshot
