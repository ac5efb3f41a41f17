-- ===== src/Candidate/PublishSource.antt =====
-- apps/daemon/src/publish/git-publish-source.ts: the operations that publish a candidate, with the
-- blobs of its result snapshot. The text of a blob's path is that of the source.
use Prim.Native.String.{◌++◌}
use ai_smart_flow.Shared.{
  ℕ, Bool, true, false, String, List, [], ◌∷◌, Option, none, some, not, ◌&&◌, ◌||◌, ◌==◌, text_eq,
  nat_eq,
}
use ai_smart_flow.Errors.{Result, ok, err, ◌>>=◌, ◌>>◌, ensure, thrown}
use ai_smart_flow.Protocol.Records.{ArtifactRef}
use ai_smart_flow.Publish.Operations.{FilePath, path_eq, ApplyOperation, OperationType, OldKind}
use ai_smart_flow.Candidate.Snapshot.{
  EntryKind, GitSnapshotEntry, GitWorkspaceSnapshot, is_result, is_symlink_mode,
  is_control_plane_path,
}
use ai_smart_flow.Candidate.Operations.{
  Content, CandidateEntry, CandidateOperation, Candidate, add, modify, delete, operation_path,
  file_mode, entry_at,
}

abbrev pub is_file : EntryKind → Bool
is_file EntryKind.file = true
is_file EntryKind.symlink = false

abbrev pub old_entry : CandidateOperation → Option CandidateEntry
old_entry (add path new) = none
old_entry (modify path old new) = some old
old_entry (delete path old) = some old

abbrev pub new_entry : CandidateOperation → Option CandidateEntry
new_entry (add path new) = some new
new_entry (modify path old new) = some new
new_entry (delete path old) = none

abbrev pub operation_type : CandidateOperation → OperationType
operation_type (add path new) = OperationType.add
operation_type (modify path old new) = OperationType.modify
operation_type (delete path old) = OperationType.delete

abbrev symlink_content : Content → Bool
symlink_content (Content.file size) = false
symlink_content (Content.symlink target) = true

abbrev pub is_symlink_entry : Option CandidateEntry → Bool
is_symlink_entry none = false
is_symlink_entry (some e) = symlink_content e.content

abbrev pub has_size : ℕ → Content → Bool
has_size n (Content.file size) = n == size
has_size n (Content.symlink target) = false

-- `fileMode`, where it does not throw.
abbrev pub mode_is : GitSnapshotEntry → ℕ → Bool
mode_is entry mode = file_mode entry.mode == mode

-- `fileMode` throws.
unfoldable pub file_mode_throws : GitSnapshotEntry → Bool
file_mode_throws entry = not (is_file entry.kind) || is_symlink_mode entry.mode

abbrev pub blob_of : GitSnapshotEntry → ArtifactRef
blob_of entry = record {
  relative_path = "git-object-store/blobs/" ++ entry.blob_id;
  sha256 = entry.sha256;
  size = entry.size;
}

abbrev pub blob_bound : CandidateEntry → Option GitSnapshotEntry → Result (Option ArtifactRef)
blob_bound new none = err (thrown "PUBLISH_GIT_BLOB_BINDING_INVALID")
blob_bound new (some entry) = do
  ensure
      (entry.path == new.path
        && is_file entry.kind
        && entry.sha256 == new.sha256
        && has_size entry.size new.content)
      (thrown "PUBLISH_GIT_BLOB_BINDING_INVALID")
  ensure (not (file_mode_throws entry)) (thrown "PUBLISH_SYMLINK_OPERATION_UNSUPPORTED")
  ensure (mode_is entry new.mode) (thrown "PUBLISH_GIT_BLOB_BINDING_INVALID")
  ok (some (blob_of entry))

-- The blob of what an operation writes.
unfoldable pub blob_for :
    List GitSnapshotEntry → FilePath → Option CandidateEntry → Result (Option ArtifactRef)
blob_for entries path none = ok none
blob_for entries path (some new) = blob_bound new (entry_at entries path)

abbrev pub hash_of : Option CandidateEntry → Option String
hash_of none = none
hash_of (some e) = some e.sha256

abbrev pub mode_of : Option CandidateEntry → Option ℕ
mode_of none = none
mode_of (some e) = some e.mode

abbrev pub old_kind : Option CandidateEntry → OldKind
old_kind none = OldKind.absent
old_kind (some e) = OldKind.file

abbrev pub published : CandidateOperation → Option ArtifactRef → ApplyOperation
published o blob = record {
  path = operation_path o;
  type = operation_type o;
  expected_old_kind = old_kind (old_entry o);
  expected_old_hash = hash_of (old_entry o);
  expected_old_mode = mode_of (old_entry o);
  new_hash = hash_of (new_entry o);
  new_mode = mode_of (new_entry o);
  blob_ref = blob;
}

-- The function that is mapped over the operations.
unfoldable pub publish_operation :
    List GitSnapshotEntry → CandidateOperation → Result ApplyOperation
publish_operation entries o = do
  ensure (not (is_control_plane_path (operation_path o)))
      (thrown "PUBLISH_CONTROL_PLANE_OPERATION_BLOCKED")
  ensure (not (is_symlink_entry (old_entry o) || is_symlink_entry (new_entry o)))
      (thrown "PUBLISH_SYMLINK_OPERATION_UNSUPPORTED")
  blob ← blob_for entries (operation_path o) (new_entry o)
  ok (published o blob)

unfoldable pub publish_operations :
    List GitSnapshotEntry → List CandidateOperation → Result (List ApplyOperation)
publish_operations entries [] = ok []
publish_operations entries (o ∷ os) = do
  first ← publish_operation entries o
  rest ← publish_operations entries os
  ok (first ∷ rest)

-- `gitPublishOperations`
unfoldable pub git_publish_operations :
    Candidate → GitWorkspaceSnapshot → Result (List ApplyOperation)
git_publish_operations c snapshot = do
  ensure (c.body.result_snapshot_hash == snapshot.snapshot_hash && is_result snapshot.snapshot_kind)
      (thrown "PUBLISH_GIT_SOURCE_BINDING_INVALID")
  publish_operations snapshot.entries c.body.operations
