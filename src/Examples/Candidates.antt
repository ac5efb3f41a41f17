-- ===== src/Examples/Candidates.antt =====
-- A run that changes one file and adds another, and the publication of its candidate.
use ai_smart_flow.Shared.{
  ℕ, ◌≡◌, ◌≢◌, refl, sym, ◌∙◌, Bool, false, String, List, [], ◌∷◌, map, none, ◌&&◌, ◌==◌, text_eq,
  nat_eq, All, beq_of, eq_iff, arith,
}
use ai_smart_flow.Errors.{ok}
use ai_smart_flow.Publish.Operations.{FilePath, ApplyOperation}
use ai_smart_flow.Candidate.Snapshot.{
  EntryKind, FileMode, SnapshotKind, GitSnapshotEntry, GitWorkspaceSnapshot, is_hex,
  is_control_plane_path, safe_relative_path, verify_entry, verify_snapshot,
}
use ai_smart_flow.Candidate.Operations.{
  CandidateOperation, CandidateBody, Candidate, CandidateEntry, candidate_body, candidate_entry,
  Content, add, modify, entry_at, operation_for, operations_at, operation_path, git_operations,
  snapshots_bound, build_git_candidate, verify_candidate, verify_bindings,
}
use ai_smart_flow.Candidate.CarryOut.{content_at, carry_out, HasContentAddresses}
use ai_smart_flow.Candidate.RoundTrip.{every-entry_at, build-carry_out}
use ai_smart_flow.Candidate.PublishSource.{git_publish_operations}
use ai_smart_flow.Candidate.Published.{IsFaithful, built-published}

unfoldable pub candidates : Unit {0}
unfolding is_hex is_control_plane_path safe_relative_path verify_entry verify_snapshot
    candidate_entry entry_at operation_for operations_at git_operations snapshots_bound
    build_git_candidate verify_candidate verify_bindings
candidates = tt

abbrev hash_text : String
hash_text = "00000000000000000000000000000000ffffffffffffffffffffffffffffffff"

abbrev old_blob : String
old_blob = "aaaaaaaaaaaaaaaaaaaaaaaaaaaaaaaaaaaaaaaa"

abbrev new_blob : String
new_blob = "bbbbbbbbbbbbbbbbbbbbbbbbbbbbbbbbbbbbbbbb"

abbrev entry : String → String → FileMode → GitSnapshotEntry
entry name blob mode = record {
  path = "src" ∷ name ∷ [];
  kind = EntryKind.file;
  mode = mode;
  blob_id = blob;
  sha256 = hash_text;
  size = 2;
  target = none;
}

abbrev baseline_entries : List GitSnapshotEntry
baseline_entries = entry "a.ts" old_blob FileMode.regular ∷ []

abbrev result_entries : List GitSnapshotEntry
result_entries =
    entry "a.ts" new_blob FileMode.regular ∷ entry "b.sh" new_blob FileMode.executable ∷ []

abbrev snapshot : SnapshotKind → List GitSnapshotEntry → GitWorkspaceSnapshot
snapshot kind entries = record {
  repository_id = hash_text;
  active_worktree_root = ".";
  snapshot_kind = kind;
  tree_id = old_blob;
  snapshot_hash = hash_text;
  included_path_policy_hash = hash_text;
  entries = entries;
  created_at = "2026-01-01T00:00:00.000Z";
}

abbrev baseline : GitWorkspaceSnapshot
baseline = snapshot SnapshotKind.run_baseline baseline_entries

abbrev result : GitWorkspaceSnapshot
result = snapshot SnapshotKind.run_result result_entries

-- The two paths of the example in their order.
abbrev before_path : FilePath → FilePath → Bool
before_path (a ∷ b ∷ []) (c ∷ d ∷ []) = b == "a.ts" && d == "b.sh"
before_path _ _ = false

abbrev digest : String → String
digest text = hash_text

abbrev byte_length : String → ℕ
byte_length text = 2

abbrev is_date : String → Bool
is_date text = text == "2026-01-01T00:00:00.000Z"

abbrev snapshot_digest : GitWorkspaceSnapshot → String
snapshot_digest s = hash_text

abbrev candidate_digest : CandidateBody → String
candidate_digest body = hash_text

abbrev file_of : String → ℕ → CandidateEntry
file_of name mode = record {
  path = "src" ∷ name ∷ [];
  content = Content.file 2;
  sha256 = hash_text;
  mode = mode;
}

abbrev operations : List CandidateOperation
operations =
    modify ("src" ∷ "a.ts" ∷ []) (file_of "a.ts" 420) (file_of "a.ts" 420)
    ∷ add ("src" ∷ "b.sh" ∷ []) (file_of "b.sh" 493)
    ∷ []

abbrev candidate : Candidate
candidate = record { body = candidate_body baseline result operations; candidate_hash = hash_text }

built :
    build_git_candidate before_path digest byte_length is_date snapshot_digest candidate_digest
      baseline result
    ≡ ok candidate
built = unfold candidates in refl

different_blobs : old_blob ≢ new_blob
different_blobs h = absurd (ground (arith, beq_of h))

-- The blob of the baseline is none of the result's.
other_blobs : HasContentAddresses baseline_entries result_entries
other_blobs path a b before after same kind = absurd (
    different_blobs (
      sym (
        (eq_iff a.blob_id old_blob).0
          (every-entry_at (λ e. e.blob_id == old_blob) baseline_entries path a refl before))
      ∙ same
      ∙ (eq_iff b.blob_id new_blob).0
          (every-entry_at (λ e. e.blob_id == new_blob) result_entries path b refl after)))

build-carry_out_example :
    carry_out operations (content_at baseline_entries) ("src" ∷ "b.sh" ∷ [])
    ≡ content_at result_entries ("src" ∷ "b.sh" ∷ [])
build-carry_out_example =
    build-carry_out before_path digest byte_length is_date snapshot_digest candidate_digest baseline
      result candidate built other_blobs ("src" ∷ "b.sh" ∷ [])

built-published_example :
    (published : List ApplyOperation) × (git_publish_operations candidate result ≡ ok published)
    × All (IsFaithful baseline_entries result_entries) published
    × (map (λ (a : ApplyOperation). a.path) published ≡ map operation_path operations)
built-published_example =
    built-published before_path digest byte_length is_date snapshot_digest candidate_digest baseline
      result candidate built refl refl
