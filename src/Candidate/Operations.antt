-- ===== src/Candidate/Operations.antt =====
-- packages/workspace/src/candidate-builder.ts: the candidate of a run, made of two snapshots.
-- `operations_digest` stands for SHA-256 of the canonical text of the candidate's three first fields.
use ai_smart_flow.Shared.{
  ℕ, Bool, false, String, List, [], ◌∷◌, ◌++◌, map, Option, none, some, not, ◌&&◌, ◌||◌, ◌==◌,
  text_eq, if◌then◌else◌, any, every, includes,
}
use ai_smart_flow.Errors.{Result, ok, err, ◌>>=◌, ◌>>◌, ensure, thrown}
use ai_smart_flow.Protocol.Refine.{is_some, bool_eq}
use ai_smart_flow.Publish.Operations.{FilePath, path_eq}
use ai_smart_flow.Candidate.Snapshot.{
  EntryKind, FileMode, GitSnapshotEntry, GitWorkspaceSnapshot, is_result, is_symlink_mode,
  is_executable, is_control_plane_path, is_hex, verify_snapshot,
}

-- The kind and what belongs to it: the size of a file, the target of a symbolic link.
pub data Content : Type 0 where
  file : ℕ → Content
  symlink : String → Content

pub record CandidateEntry : Type 0 where
  pub path : FilePath
  pub content : Content
  pub sha256 : String
  pub mode : ℕ

pub data CandidateOperation : Type 0 where
  add : FilePath → CandidateEntry → CandidateOperation
  modify : FilePath → CandidateEntry → CandidateEntry → CandidateOperation
  delete : FilePath → CandidateEntry → CandidateOperation

pub record CandidateBody : Type 0 where
  pub run_baseline_snapshot_hash : String
  pub result_snapshot_hash : String
  pub operations : List CandidateOperation

pub record Candidate : Type 0 where
  pub body : CandidateBody
  pub candidate_hash : String

abbrev pub operation_path : CandidateOperation → FilePath
operation_path (add path entry) = path
operation_path (modify path old entry) = path
operation_path (delete path old) = path

abbrev pub file_mode : FileMode → ℕ
file_mode mode = if is_executable mode then 493 else 420

abbrev pub link_entry : GitSnapshotEntry → Option String → Result CandidateEntry
link_entry entry none = err (thrown "GIT_SYMLINK_TARGET_MISSING")
link_entry entry (some target) =
    ok (record { path = entry.path; content = symlink target; sha256 = entry.sha256; mode = 511 })

abbrev pub entry_of : GitSnapshotEntry → EntryKind → Result CandidateEntry
entry_of entry EntryKind.symlink = link_entry entry entry.target
entry_of entry EntryKind.file = ok (record {
  path = entry.path;
  content = file entry.size;
  sha256 = entry.sha256;
  mode = file_mode entry.mode;
})

-- `candidateEntry`
unfoldable pub candidate_entry : GitSnapshotEntry → Result CandidateEntry
candidate_entry entry = entry_of entry entry.kind

-- `new Map(entries.map((entry) => [entry.path, entry])).get(path)`: the last entry of a path counts.
unfoldable pub entry_at : List GitSnapshotEntry → FilePath → Option GitSnapshotEntry
entry_at [] path = none
entry_at (e ∷ es) path =
    let later = entry_at es path in
    if is_some later then later else (if e.path == path then some e else none)

abbrev pub mode_beq : FileMode → FileMode → Bool
mode_beq a b =
    bool_eq (is_symlink_mode a) (is_symlink_mode b) && bool_eq (is_executable a) (is_executable b)

abbrev pub changed : GitSnapshotEntry → GitSnapshotEntry → Bool
changed old new = not (old.blob_id == new.blob_id) || not (mode_beq old.mode new.mode)

-- The body of the loop of `gitOperations`.
unfoldable pub operation_for :
    FilePath
    → Option GitSnapshotEntry
    → Option GitSnapshotEntry
    → Result (Option CandidateOperation)
operation_for path none none = ok none
operation_for path none (some new) = do
  new_entry ← candidate_entry new
  ok (some (add path new_entry))
operation_for path (some old) none = do
  old_entry ← candidate_entry old
  ok (some (delete path old_entry))
operation_for path (some old) (some new) =
    if changed old new
    then (candidate_entry old >>= λ old_entry.
        candidate_entry new >>= λ new_entry. ok (some (modify path old_entry new_entry)))
    else ok none

abbrev pub pushed : List CandidateOperation → Option CandidateOperation → List CandidateOperation
pushed rest none = rest
pushed rest (some o) = o ∷ rest

-- The loop of `gitOperations` over the paths.
unfoldable pub operations_at :
    List GitSnapshotEntry → List GitSnapshotEntry → List FilePath → Result (List CandidateOperation)
operations_at before after [] = ok []
operations_at before after (p ∷ ps) = do
  o ← operation_for p (entry_at before p) (entry_at after p)
  rest ← operations_at before after ps
  ok (pushed rest o)

-- `new Set(paths)`: the first of equal paths stays.
abbrev pub path_set : List FilePath → List FilePath → List FilePath
path_set seen [] = []
path_set seen (p ∷ ps) = if includes p seen then path_set seen ps else p ∷ path_set (p ∷ seen) ps

abbrev pub paths_of : List GitSnapshotEntry → List FilePath
paths_of entries = map (λ (e : GitSnapshotEntry). e.path) entries

-- The body that the hash of a candidate covers.
abbrev pub candidate_body :
    GitWorkspaceSnapshot → GitWorkspaceSnapshot → List CandidateOperation → CandidateBody
candidate_body baseline result operations = record {
  run_baseline_snapshot_hash = baseline.snapshot_hash;
  result_snapshot_hash = result.snapshot_hash;
  operations = operations;
}

module _ (path_before : FilePath → FilePath → Bool) where
  abbrev pub insert_path : FilePath → List FilePath → List FilePath
  insert_path p [] = p ∷ []
  insert_path p (q ∷ qs) = if path_before q p then q ∷ insert_path p qs else p ∷ q ∷ qs

  abbrev pub sort_paths : List FilePath → List FilePath
  sort_paths [] = []
  sort_paths (p ∷ ps) = insert_path p (sort_paths ps)

  -- `gitOperations`
  unfoldable pub git_operations :
      GitWorkspaceSnapshot → GitWorkspaceSnapshot → Result (List CandidateOperation)
  git_operations baseline result =
      operations_at baseline.entries result.entries
        (sort_paths (path_set [] (paths_of baseline.entries ++ paths_of result.entries)))

  module _ (digest : String → String) (byte_length : String → ℕ) (is_date : String → Bool)
      (snapshot_digest : GitWorkspaceSnapshot → String)
      (candidate_digest : CandidateBody → String) where
    -- What binds the two snapshots to each other.
    unfoldable pub snapshots_bound : GitWorkspaceSnapshot → GitWorkspaceSnapshot → Bool
    snapshots_bound baseline result =
        verify_snapshot path_before digest byte_length is_date snapshot_digest baseline
        && verify_snapshot path_before digest byte_length is_date snapshot_digest result
        && not (is_result baseline.snapshot_kind)
        && is_result result.snapshot_kind
        && baseline.repository_id == result.repository_id
        && baseline.included_path_policy_hash == result.included_path_policy_hash

    -- `buildGitCandidate`
    unfoldable pub build_git_candidate :
        GitWorkspaceSnapshot → GitWorkspaceSnapshot → Result Candidate
    build_git_candidate baseline result = do
      ensure (snapshots_bound baseline result) (thrown "GIT_CANDIDATE_SNAPSHOT_BINDING_INVALID")
      operations ← git_operations baseline result
      ensure (not (any (λ o. is_control_plane_path (operation_path o)) operations))
          (thrown "GIT_CANDIDATE_CONTROL_PATH_FORBIDDEN")
      let body = candidate_body baseline result operations
      ok (record { body = body; candidate_hash = candidate_digest body })

    -- `verifyCandidate`; the shape of the value is that of the record.
    unfoldable pub verify_candidate : Candidate → Bool
    verify_candidate c =
        every (λ o. not (is_control_plane_path (operation_path o))) c.body.operations
        && is_hex 64 64 c.body.run_baseline_snapshot_hash
        && is_hex 64 64 c.body.result_snapshot_hash
        && is_hex 64 64 c.candidate_hash
        && c.candidate_hash == candidate_digest c.body

    -- `verifyCandidateSnapshotBindings`, where `canonical` writes operations as a text.
    unfoldable pub verify_bindings :
        (List CandidateOperation → String)
        → Candidate
        → GitWorkspaceSnapshot
        → GitWorkspaceSnapshot
        → Bool
    verify_bindings canonical c baseline result =
        verify_candidate c
        && snapshots_bound baseline result
        && c.body.run_baseline_snapshot_hash == baseline.snapshot_hash
        && c.body.result_snapshot_hash == result.snapshot_hash
        && elim (git_operations baseline result) [
          | err e ↦ false
          | ok operations ↦ canonical c.body.operations == canonical operations
        ]
