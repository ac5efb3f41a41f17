-- ===== src/Candidate/RoundTrip.antt =====
-- packages/workspace/src/candidate-builder.ts: a candidate takes its baseline to its result.
use ai_smart_flow.Shared.{
  ◌≡◌, refl, sym, ap, ◌∙◌, subst, inl, Bool, true, false, String, ℕ, List, [], ◌∷◌, ◌++◌, Option,
  none, some, not, ◌||◌, text_eq, if◌then◌else◌, every, includes, arith, eq_iff, any, &&-left,
  &&-right, &&-intro, beq_of, beq_self,
}
use ai_smart_flow.Errors.{ok, ok-injective, ensure-true, >>=-eq-ok}
use ai_smart_flow.Publish.Operations.{FilePath, path_eq}
use ai_smart_flow.Candidate.Snapshot.{
  EntryKind, FileMode, GitSnapshotEntry, GitWorkspaceSnapshot, verify_snapshot, verify_entry,
  is_symlink_mode, is_executable, kind_matches, is_result, is_control_plane_path, is_hex,
}
use ai_smart_flow.Candidate.Operations.{
  CandidateOperation, Candidate, CandidateBody, operation_path, candidate_entry, entry_of,
  link_entry, entry_at, mode_beq, changed, path_set, paths_of, sort_paths, git_operations,
  snapshots_bound, verify_bindings, verify_candidate, build_git_candidate,
}
use ai_smart_flow.Candidate.CarryOut.{
  entry_view, content_at, carry_out, HasContentAddresses, SameWhereUnchanged, entry_at-path,
  entry_at-none, includes-++, includes-path_set, includes-sort_paths, carry_out-operations_at,
}

abbrev pub is_link : EntryKind → Bool
is_link EntryKind.file = false
is_link EntryKind.symlink = true

same_kind : (a b : EntryKind) → is_link a ≡ is_link b → a ≡ b
same_kind a b h = ground arith

same_file_mode : (a b : FileMode) → mode_beq a b ≡ true → is_executable a ≡ is_executable b
same_file_mode a b h = ground arith

same_link : (a b : FileMode) → mode_beq a b ≡ true → is_symlink_mode a ≡ is_symlink_mode b
same_link a b h = ground arith

link-same :
    (a b : GitSnapshotEntry) (target : Option String)
    → a.path ≡ b.path
    → a.sha256 ≡ b.sha256
    → link_entry a target ≡ link_entry b target
link-same a b none path sha = refl
link-same a b (some t) path sha = simp (path, sha)

same_entry :
    (a b : GitSnapshotEntry) (k : EntryKind)
    → a.path ≡ b.path
    → a.sha256 ≡ b.sha256
    → a.size ≡ b.size
    → a.target ≡ b.target
    → is_executable a.mode ≡ is_executable b.mode
    → entry_of a k ≡ entry_of b k
same_entry a b EntryKind.file path sha size target mode = simp (path, sha, size, mode)
same_entry a b EntryKind.symlink path sha size target mode =
    simp target (link-same a b b.target path sha)

pub every-entry_at :
    (p : GitSnapshotEntry → Bool) (es : List GitSnapshotEntry) (path : FilePath)
    (e : GitSnapshotEntry)
    → every p es ≡ true
    → entry_at es path ≡ some e
    → p e ≡ true
unfolding entry_at
every-entry_at p [] path e h found = absurd (ground arith)
every-entry_at p (d ∷ ds) path e h found = ground (arith, every-entry_at p ds path e)

unchanged_mode : (a b : GitSnapshotEntry) → changed a b ≡ false → mode_beq a.mode b.mode ≡ true
unchanged_mode a b h = ground arith

unchanged_blob : (a b : GitSnapshotEntry) → changed a b ≡ false → a.blob_id ≡ b.blob_id
unchanged_blob a b h = ground (arith, eq_iff a.blob_id b.blob_id)

module _ (path_before : FilePath → FilePath → Bool) (before after : List GitSnapshotEntry)
    (path : FilePath) where
  absent_alike :
      (b a : Bool)
      → includes path (paths_of before) ≡ b
      → includes path (paths_of after) ≡ a
      → (if b || a then content_at after path else content_at before path) ≡ content_at after path
  absent_alike true a hb ha = refl
  absent_alike false true hb ha = refl
  absent_alike false false hb ha =
      ap entry_view (entry_at-none before path hb ∙ sym (entry_at-none after path ha))

  -- A path that neither snapshot lists is absent from both.
  listed_or_absent :
      (if includes path (sort_paths path_before (path_set [] (paths_of before ++ paths_of after)))
        then content_at after path
        else content_at before path)
      ≡ content_at after path
  listed_or_absent =
      rw
        (
          includes-sort_paths path_before path (path_set [] (paths_of before ++ paths_of after)),
          includes-path_set path [] (paths_of before ++ paths_of after),
          includes-++ path (paths_of before) (paths_of after),
        )
        (absent_alike (includes path (paths_of before)) (includes path (paths_of after)) refl refl)

module _ (path_before : FilePath → FilePath → Bool) (digest : String → String)
    (byte_length : String → ℕ) (is_date : String → Bool)
    (snapshot_digest : GitWorkspaceSnapshot → String) where
  kind-mode :
      (e : GitSnapshotEntry) (k : EntryKind)
      → kind_matches path_before digest byte_length is_date snapshot_digest e k ≡ true
      → is_symlink_mode e.mode ≡ is_link k
  kind-mode e EntryKind.file h = ground arith
  kind-mode e EntryKind.symlink h = ground arith

  pub verified-mode :
      (e : GitSnapshotEntry)
      → verify_entry path_before digest byte_length is_date snapshot_digest e ≡ true
      → is_symlink_mode e.mode ≡ is_link e.kind
  unfolding verify_entry
  verified-mode e h = kind-mode e e.kind (ground arith)

  same-unchanged :
      (path : FilePath) (before after : List GitSnapshotEntry) (old new : Option GitSnapshotEntry)
      → every (verify_entry path_before digest byte_length is_date snapshot_digest) before ≡ true
      → every (verify_entry path_before digest byte_length is_date snapshot_digest) after ≡ true
      → HasContentAddresses before after
      → entry_at before path ≡ old
      → entry_at after path ≡ new
      → SameWhereUnchanged old new
  unfolding candidate_entry
  same-unchanged path before after none new vb va content hb ha = tt
  same-unchanged path before after (some a) none vb va content hb ha = tt
  same-unchanged path before after (some a) (some b) vb va content hb ha = λ unchanged.
      let is_valid = verify_entry path_before digest byte_length is_date snapshot_digest in
      let mode = unchanged_mode a b unchanged in
      let kind = same_kind a.kind b.kind (
        sym (verified-mode a (every-entry_at is_valid before path a vb hb))
        ∙ same_link a.mode b.mode mode
        ∙ verified-mode b (every-entry_at is_valid after path b va ha)) in
      let (sha, size, target) = content path a b hb ha (unchanged_blob a b unchanged) kind in
      ap (entry_of a) kind
      ∙ same_entry a b b.kind (entry_at-path before path a hb ∙ sym (entry_at-path after path b ha))
          sha size target (same_file_mode a.mode b.mode mode)

  module _ (candidate_digest : CandidateBody → String)
      (baseline result : GitWorkspaceSnapshot) where
    pub record IsBuilt (c : Candidate) : Type 0 where
      pub bound :
          snapshots_bound path_before digest byte_length is_date snapshot_digest candidate_digest
            baseline result
          ≡ true
      pub made : git_operations path_before baseline result ≡ ok c.body.operations
      pub no_control_plane :
          any (λ o. is_control_plane_path (operation_path o)) c.body.operations ≡ false
      pub hashed : c.candidate_hash ≡ candidate_digest c.body
      pub baseline_hash : c.body.run_baseline_snapshot_hash ≡ baseline.snapshot_hash
      pub result_hash : c.body.result_snapshot_hash ≡ result.snapshot_hash

    pub build-IsBuilt :
        (c : Candidate)
        → build_git_candidate path_before digest byte_length is_date snapshot_digest
            candidate_digest baseline result
          ≡ ok c
        → IsBuilt c
    unfolding build_git_candidate
    build-IsBuilt c built =
        let (bound, rest) = ensure-true _ _ _ built in
        let (operations, made, checked) =
          >>=-eq-ok (git_operations path_before baseline result) _ rest in
        let (allowed, finished) = ensure-true _ _ _ checked in
        subst IsBuilt (ok-injective _ c finished) (record {
          bound = bound;
          made = made;
          no_control_plane = ground (arith, allowed);
          hashed = refl;
          baseline_hash = refl;
          result_hash = refl;
        })

    pub verified-entries :
        (s : GitWorkspaceSnapshot)
        → verify_snapshot path_before digest byte_length is_date snapshot_digest s ≡ true
        → every (verify_entry path_before digest byte_length is_date snapshot_digest) s.entries
          ≡ true
    unfolding verify_snapshot
    verified-entries s h = &&-right _ _ (&&-left _ _ h)

    pub bound-verified :
        snapshots_bound path_before digest byte_length is_date snapshot_digest candidate_digest
            baseline result
          ≡ true
        → (every
              (verify_entry path_before digest byte_length is_date snapshot_digest)
              baseline.entries
            ≡ true)
          × (every
                (verify_entry path_before digest byte_length is_date snapshot_digest)
                result.entries
              ≡ true)
    unfolding snapshots_bound
    bound-verified h =
        let both = &&-left _ _ (&&-left _ _ (&&-left _ _ (&&-left _ _ h))) in
        (verified-entries baseline (&&-left _ _ both), verified-entries result (&&-right _ _ both))

    pub bound-result :
        snapshots_bound path_before digest byte_length is_date snapshot_digest candidate_digest
            baseline result
          ≡ true
        → is_result result.snapshot_kind ≡ true
    unfolding snapshots_bound
    bound-result h = &&-right _ _ (&&-left _ _ (&&-left _ _ h))

    -- A candidate that is built from two snapshots takes the one to the other: its operations,
    -- carried out in their order on what the baseline holds at each path, leave at each path what
    -- the result holds there. This supposes that a blob's identifier determines its content.
    pub build-carry_out :
        (c : Candidate)
        → build_git_candidate path_before digest byte_length is_date snapshot_digest
            candidate_digest baseline result
          ≡ ok c
        → HasContentAddresses baseline.entries result.entries
        → (path : FilePath)
        → carry_out c.body.operations (content_at baseline.entries) path
          ≡ content_at result.entries path
    unfolding git_operations
    build-carry_out c built content path =
        let parts = build-IsBuilt c built in
        let (vb, va) = bound-verified parts.bound in
        let before = baseline.entries in
        let after = result.entries in
        carry_out-operations_at before after
          (λ p. same-unchanged p before after _ _ vb va content refl refl) path _ c.body.operations
          (content_at before) parts.made (inl refl)
        ∙ listed_or_absent path_before before after path

    parts_hex : (a b : String) → a ≡ b → is_hex 64 64 b ≡ true → is_hex 64 64 a ≡ true
    parts_hex a b same h = ap (is_hex 64 64) same ∙ h

    none_forbidden :
        (os : List CandidateOperation)
        → any (λ o. is_control_plane_path (operation_path o)) os ≡ false
        → every (λ o. not (is_control_plane_path (operation_path o))) os ≡ true
    none_forbidden [] h = refl
    none_forbidden (o ∷ os) h = ground (arith, none_forbidden os)

    hashes_hex :
        (s : GitWorkspaceSnapshot)
        → verify_snapshot path_before digest byte_length is_date snapshot_digest s ≡ true
        → is_hex 64 64 s.snapshot_hash ≡ true
    unfolding verify_snapshot
    hashes_hex s h =
        let to_ascending = &&-left _ _ (&&-left _ _ h) in
        let to_date = &&-left _ _ (&&-left _ _ (&&-left _ _ to_ascending)) in
        &&-right _ _ (&&-left _ _ (&&-left _ _ to_date))

    -- A candidate that is built passes the check of its binding to the two snapshots that it was
    -- built from, if hashes of candidates are written in 64 hexadecimal digits.
    pub build-verify_bindings :
        (canonical : List CandidateOperation → String) (c : Candidate)
        → build_git_candidate path_before digest byte_length is_date snapshot_digest
            candidate_digest baseline result
          ≡ ok c
        → ((b : CandidateBody) → is_hex 64 64 (candidate_digest b) ≡ true)
        → verify_bindings path_before digest byte_length is_date snapshot_digest candidate_digest
            canonical c baseline result
          ≡ true
    unfolding verify_bindings verify_candidate snapshots_bound
    build-verify_bindings canonical c built hex =
        let parts = build-IsBuilt c built in
        let both = &&-left _ _ (&&-left _ _ (&&-left _ _ (&&-left _ _ parts.bound))) in
        let baseline_hex =
          parts_hex _ _ parts.baseline_hash (hashes_hex baseline (&&-left _ _ both)) in
        let result_hex = parts_hex _ _ parts.result_hash (hashes_hex result (&&-right _ _ both)) in
        let paths = none_forbidden c.body.operations parts.no_control_plane in
        let hash_hex = parts_hex _ _ parts.hashed (hex c.body) in
        let valid =
          &&-intro (&&-intro (&&-intro (&&-intro paths baseline_hex) result_hex) hash_hex)
            (beq_of parts.hashed) in
        let bindings =
          &&-intro (&&-intro (&&-intro valid parts.bound) (beq_of parts.baseline_hash))
            (beq_of parts.result_hash) in
        &&-intro bindings (rw parts.made (beq_self (canonical c.body.operations)))
