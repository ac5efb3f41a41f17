-- ===== src/Candidate/Published.antt =====
-- apps/daemon/src/publish/git-publish-source.ts: what the operations of a publication expect and
-- write, as the two snapshots of the candidate have it.
use ai_smart_flow.Shared.{
  ◌≡◌, refl, sym, ap, ◌∙◌, subst, inl, inr, ℕ, Bool, true, false, String, List, [], ◌∷◌, map,
  Option, none, some, text_eq, nat_eq, any, every, All, arith, Bool-cases, beq_self, &&-intro,
  beq_of, or-left, or-right,
}
use ai_smart_flow.Errors.{Result, ok, ok-injective, Result-cases}
use ai_smart_flow.Publish.Operations.{FilePath, path_eq, ApplyOperation, operation_valid}
use ai_smart_flow.Candidate.Snapshot.{
  EntryKind, GitSnapshotEntry, GitWorkspaceSnapshot, is_symlink_mode, is_control_plane_path,
  verify_entry,
}
use ai_smart_flow.Candidate.Operations.{
  Content, CandidateEntry, CandidateOperation, Candidate, CandidateBody, add, modify, delete,
  operation_path, candidate_entry, entry_of, changed, entry_at, file_mode, operation_for, pushed,
  operations_at, git_operations, build_git_candidate,
}
use ai_smart_flow.Candidate.CarryOut.{operations_at-cons}
use ai_smart_flow.Candidate.RoundTrip.{
  build-IsBuilt, bound-verified, bound-result, is_link, every-entry_at, verified-mode,
}
use ai_smart_flow.Candidate.PublishSource.{
  is_file, publish_operation, publish_operations, git_publish_operations, blob_for,
  file_mode_throws, blob_of, published,
}

-- The entries that an operation names are those of the snapshots.
module _ (before after : List GitSnapshotEntry) where
  abbrev pub IsEntryOf : List GitSnapshotEntry → FilePath → CandidateEntry → Type 0
  IsEntryOf entries path e =
      (g : GitSnapshotEntry) × (entry_at entries path ≡ some g) × (candidate_entry g ≡ ok e)

  abbrev pub IsMade : CandidateOperation → Type 0
  IsMade (add path new) = (entry_at before path ≡ none) × IsEntryOf after path new
  IsMade (modify path old new) = IsEntryOf before path old × IsEntryOf after path new
  IsMade (delete path old) = IsEntryOf before path old × (entry_at after path ≡ none)

  abbrev IsMadeOrNone : Result (Option CandidateOperation) → Type 0
  IsMadeOrNone (ok (some o)) = IsMade o
  IsMadeOrNone _ = Unit

  operation_for-IsMade :
      (path : FilePath) (old new : Option GitSnapshotEntry)
      → entry_at before path ≡ old
      → entry_at after path ≡ new
      → IsMadeOrNone (operation_for path old new)
  unfolding operation_for
  operation_for-IsMade path none none hb ha = tt
  operation_for-IsMade path none (some b) hb ha = elim (Result-cases (candidate_entry b)) [
    | inl (e, made) ↦ rw made (hb, (b, ha, made))
    | inr (e, failed) ↦ rw failed tt
  ]
  operation_for-IsMade path (some a) none hb ha = elim (Result-cases (candidate_entry a)) [
    | inl (e, made) ↦ rw made ((a, hb, made), ha)
    | inr (e, failed) ↦ rw failed tt
  ]
  operation_for-IsMade path (some a) (some b) hb ha = elim (Bool-cases (changed a b)) [
    | inr unchanged ↦ rw unchanged tt
    | inl different ↦ rw different (elim (Result-cases (candidate_entry a)) [
      | inr (e, failed) ↦ rw failed tt
      | inl (d, found) ↦ rw found (elim (Result-cases (candidate_entry b)) [
        | inr (e, failed) ↦ rw failed tt
        | inl (e, made) ↦ rw made ((a, hb, found), (b, ha, made))
      ])
    ])
  ]

  pushed-All :
      (o : Option CandidateOperation) (rest : List CandidateOperation)
      → IsMadeOrNone (ok o)
      → All IsMade rest
      → All IsMade (pushed rest o)
  pushed-All none rest m all = all
  pushed-All (some o) rest m all = (m, all)

  pub operations_at-IsMade :
      (ps : List FilePath) (ops : List CandidateOperation)
      → operations_at before after ps ≡ ok ops
      → All IsMade ops
  unfolding operations_at
  operations_at-IsMade [] ops made = subst (All IsMade) (ok-injective [] ops made) tt
  operations_at-IsMade (p ∷ ps) ops made =
      let (o, rest, one, others, joined) = operations_at-cons before after p ps ops made in
      subst (All IsMade) joined (
        pushed-All o rest (subst IsMadeOrNone one (operation_for-IsMade p _ _ refl refl))
          (operations_at-IsMade ps rest others))

abbrev entry_hash : Option GitSnapshotEntry → Option String
entry_hash none = none
entry_hash (some g) = some g.sha256

abbrev entry_mode : Option GitSnapshotEntry → Option ℕ
entry_mode none = none
entry_mode (some g) = some (file_mode g.mode)

abbrev pub hash_at : List GitSnapshotEntry → FilePath → Option String
hash_at entries path = entry_hash (entry_at entries path)

abbrev pub mode_at : List GitSnapshotEntry → FilePath → Option ℕ
mode_at entries path = entry_mode (entry_at entries path)

-- An operation of the publication: its shape is one that the preflight accepts, what it expects is
-- what the baseline holds at its path, and what it writes is what the result holds there.
pub record IsFaithful (before after : List GitSnapshotEntry) (a : ApplyOperation) : Type 0 where
  pub valid : operation_valid a ≡ true
  pub old_hash : a.expected_old_hash ≡ hash_at before a.path
  pub old_mode : a.expected_old_mode ≡ mode_at before a.path
  pub new_hash : a.new_hash ≡ hash_at after a.path
  pub new_mode : a.new_mode ≡ mode_at after a.path

abbrev file_entry : GitSnapshotEntry → CandidateEntry
file_entry g = record {
  path = g.path;
  content = Content.file g.size;
  sha256 = g.sha256;
  mode = file_mode g.mode;
}

entry_of-file :
    (g : GitSnapshotEntry) (k : EntryKind) (e : CandidateEntry)
    → entry_of g k ≡ ok e
    → is_file k ≡ true
    → file_entry g ≡ e
entry_of-file g EntryKind.file e made h = ok-injective (file_entry g) e made
entry_of-file g EntryKind.symlink e made h = absurd (ground arith)

-- Every entry is a file, with the mode of one.
abbrev pub HasOnlyFiles : List GitSnapshotEntry → Type 0
HasOnlyFiles entries =
    (path : FilePath) (g : GitSnapshotEntry)
    → entry_at entries path ≡ some g
    → (is_file g.kind ≡ true) × (is_symlink_mode g.mode ≡ false)

not_link : (k : EntryKind) → is_file k ≡ true → is_link k ≡ false
not_link k h = ground arith

cons-same : (a b : FilePath) (xs ys : List FilePath) → a ≡ b → xs ≡ ys → (a ∷ xs) ≡ (b ∷ ys)
cons-same a b xs ys h k = cc

module _ (before after : List GitSnapshotEntry) (old_files : HasOnlyFiles before)
    (new_files : HasOnlyFiles after) where
  blob_for-file :
      (path : FilePath) (g : GitSnapshotEntry)
      → entry_at after path ≡ some g
      → blob_for after path (some (file_entry g)) ≡ ok (some (blob_of g))
  unfolding blob_for file_mode_throws
  blob_for-file path g found =
      let (kind, mode) = new_files path g found in
      rw
        (
          found,
          beq_self g.path,
          kind,
          beq_self g.sha256,
          beq_self g.size,
          mode,
          beq_self (file_mode g.mode),
        )
        refl

  abbrev IsPublished : CandidateOperation → Type 0
  IsPublished o =
      (a : ApplyOperation) × (publish_operation after o ≡ ok a)
      × (a.path ≡ operation_path o)
      × IsFaithful before after a

  old-file :
      (path : FilePath) (e : CandidateEntry)
      → IsEntryOf before after before path e
      → (g : GitSnapshotEntry) × (entry_at before path ≡ some g) × (file_entry g ≡ e)
  unfolding candidate_entry
  old-file path e (g, found, made) =
      (g, found, entry_of-file g g.kind e made (old_files path g found).0)

  new-file :
      (path : FilePath) (e : CandidateEntry)
      → IsEntryOf before after after path e
      → (g : GitSnapshotEntry) × (entry_at after path ≡ some g) × (file_entry g ≡ e)
  unfolding candidate_entry
  new-file path e (g, found, made) =
      (g, found, entry_of-file g g.kind e made (new_files path g found).0)

  made-IsPublished :
      (o : CandidateOperation)
      → is_control_plane_path (operation_path o) ≡ false
      → IsMade before after o
      → IsPublished o
  unfolding publish_operation operation_valid blob_for
  made-IsPublished (add path new) allowed (absent, entry) =
      let (g, found, same) = new-file path new entry in
      subst (λ e. IsPublished (add path e)) same
        (
          published (add path (file_entry g)) (some (blob_of g)),
          rw (allowed, blob_for-file path g found) refl,
          refl,
          record {
            valid = refl;
            old_hash = sym (ap entry_hash absent);
            old_mode = sym (ap entry_mode absent);
            new_hash = sym (ap entry_hash found);
            new_mode = sym (ap entry_mode found);
          },
        )
  made-IsPublished (modify path old new) allowed (old_made, new_made) =
      let (d, before_it, same_old) = old-file path old old_made in
      let (g, found, same) = new-file path new new_made in
      subst (λ d. IsPublished (modify path d new)) same_old
        (subst (λ e. IsPublished (modify path (file_entry d) e)) same
          (
            published (modify path (file_entry d) (file_entry g)) (some (blob_of g)),
            rw (allowed, blob_for-file path g found) refl,
            refl,
            record {
              valid = refl;
              old_hash = sym (ap entry_hash before_it);
              old_mode = sym (ap entry_mode before_it);
              new_hash = sym (ap entry_hash found);
              new_mode = sym (ap entry_mode found);
            },
          ))
  made-IsPublished (delete path old) allowed (made, absent) =
      let (d, before_it, same_old) = old-file path old made in
      subst (λ d. IsPublished (delete path d)) same_old
        (
          published (delete path (file_entry d)) none,
          rw allowed refl,
          refl,
          record {
            valid = refl;
            old_hash = sym (ap entry_hash before_it);
            old_mode = sym (ap entry_mode before_it);
            new_hash = sym (ap entry_hash absent);
            new_mode = sym (ap entry_mode absent);
          },
        )

  all-published :
      (os : List CandidateOperation)
      → any (λ o. is_control_plane_path (operation_path o)) os ≡ false
      → All (IsMade before after) os
      → (results : List ApplyOperation) × (publish_operations after os ≡ ok results)
        × All (IsFaithful before after) results
        × (map (λ (a : ApplyOperation). a.path) results ≡ map operation_path os)
  unfolding publish_operations
  all-published [] allowed made = ([], refl, tt, refl)
  all-published (o ∷ os) allowed (made, others) =
      let (a, one, at, faithful) =
        made-IsPublished o (or-left (is_control_plane_path (operation_path o)) _ allowed) made in
      let (results, rest, all, paths) =
        all-published os (or-right (is_control_plane_path (operation_path o)) _ allowed) others in
      (a ∷ results, rw (one, rest) refl, (faithful, all), cons-same _ _ _ _ at paths)

module _ (path_before : FilePath → FilePath → Bool) (digest : String → String)
    (byte_length : String → ℕ) (is_date : String → Bool)
    (snapshot_digest : GitWorkspaceSnapshot → String) (candidate_digest : CandidateBody → String)
    (baseline result : GitWorkspaceSnapshot) where
  files_only :
      (entries : List GitSnapshotEntry)
      → every (verify_entry path_before digest byte_length is_date snapshot_digest) entries ≡ true
      → every (λ (g : GitSnapshotEntry). is_file g.kind) entries ≡ true
      → HasOnlyFiles entries
  files_only entries verified files path g found =
      let is_valid = verify_entry path_before digest byte_length is_date snapshot_digest in
      let kind = every-entry_at (λ g. is_file g.kind) entries path g files found in
      let mode =
        verified-mode path_before digest byte_length is_date snapshot_digest g
          (every-entry_at is_valid entries path g verified found) in
      (kind, mode ∙ not_link g.kind kind)

  -- A candidate that is built from two snapshots of files alone can be published: the operations of
  -- its publication are found, one for each of the candidate's with the same path and in the same
  -- order. Each has the shape that the preflight demands, expects the hash and the mode that the
  -- baseline has at its path (or nothing there), and writes those of the result (or removes it).
  pub built-published :
      (c : Candidate)
      → build_git_candidate path_before digest byte_length is_date snapshot_digest candidate_digest
          baseline result
        ≡ ok c
      → every (λ (g : GitSnapshotEntry). is_file g.kind) baseline.entries ≡ true
      → every (λ (g : GitSnapshotEntry). is_file g.kind) result.entries ≡ true
      → (results : List ApplyOperation) × (git_publish_operations c result ≡ ok results)
        × All (IsFaithful baseline.entries result.entries) results
        × (map (λ (a : ApplyOperation). a.path) results ≡ map operation_path c.body.operations)
  unfolding git_publish_operations git_operations
  built-published c built old_files new_files =
      let parts =
        build-IsBuilt path_before digest byte_length is_date snapshot_digest candidate_digest
          baseline result c built in
      let (vb, va) =
        bound-verified path_before digest byte_length is_date snapshot_digest candidate_digest
          baseline result parts.bound in
      let made =
        operations_at-IsMade baseline.entries result.entries _ c.body.operations parts.made in
      let (results, found, faithful, paths) =
        all-published baseline.entries result.entries (files_only baseline.entries vb old_files)
          (files_only result.entries va new_files) c.body.operations parts.no_control_plane made in
      (
        results,
        rw
            (&&-intro (beq_of parts.result_hash) (
              bound-result path_before digest byte_length is_date snapshot_digest candidate_digest
                baseline result parts.bound))
            found,
        faithful,
        paths,
      )
