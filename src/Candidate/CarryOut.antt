-- ===== src/Candidate/CarryOut.antt =====
-- packages/workspace/src/candidate-builder.ts: operations carried out on a view of a worktree, which
-- says what lies at each path.
use ai_smart_flow.Shared.{
  ◌≡◌, refl, sym, ap, ◌∙◌, subst, ◌⊎◌, inl, inr, Bool, true, false, List, [], ◌∷◌, ◌++◌, Option,
  none, some, ◌||◌, ◌==◌, text_eq, if◌then◌else◌, includes, arith, Bool-cases,
}
use ai_smart_flow.Errors.{Result, ok, err, Result-cases, ok-injective, ◌>>=◌, >>=-eq-ok}
use ai_smart_flow.Publish.Operations.{FilePath, path_eq, path_beq_iff}
use ai_smart_flow.Candidate.Snapshot.{GitSnapshotEntry}
use ai_smart_flow.Candidate.Operations.{
  CandidateEntry, CandidateOperation, add, modify, delete, operation_path, candidate_entry,
  entry_at, changed, operation_for, pushed, operations_at, path_set, paths_of, insert_path,
  sort_paths,
}

abbrev pub View : Type 0
View = FilePath → Option (Result CandidateEntry)

abbrev pub entry_view : Option GitSnapshotEntry → Option (Result CandidateEntry)
entry_view none = none
entry_view (some e) = some (candidate_entry e)

-- What a snapshot holds at each path.
abbrev pub content_at : List GitSnapshotEntry → View
content_at entries path = entry_view (entry_at entries path)

-- What an operation leaves at its path.
abbrev pub left_by : CandidateOperation → Option (Result CandidateEntry)
left_by (add path entry) = some (ok entry)
left_by (modify path old entry) = some (ok entry)
left_by (delete path old) = none

abbrev pub carry_out : List CandidateOperation → View → View
carry_out [] view path = view path
carry_out (o ∷ os) view path =
    carry_out os (λ p. if operation_path o == p then left_by o else view p) path

-- A blob's identifier determines its content, as the object store of git promises.
abbrev pub HasContentAddresses : List GitSnapshotEntry → List GitSnapshotEntry → Type 0
HasContentAddresses before after =
    (path : FilePath) (a b : GitSnapshotEntry)
    → entry_at before path ≡ some a
    → entry_at after path ≡ some b
    → a.blob_id ≡ b.blob_id
    → a.kind ≡ b.kind
    → (a.sha256 ≡ b.sha256) × (a.size ≡ b.size) × (a.target ≡ b.target)

pub entry_at-path :
    (es : List GitSnapshotEntry) (path : FilePath) (e : GitSnapshotEntry)
    → entry_at es path ≡ some e
    → e.path ≡ path
unfolding entry_at
entry_at-path [] path e h = absurd (ground arith)
entry_at-path (d ∷ ds) path e h = ground (arith, path_beq_iff d.path path, entry_at-path ds path e)

pub entry_at-none :
    (es : List GitSnapshotEntry) (path : FilePath)
    → includes path (paths_of es) ≡ false
    → entry_at es path ≡ none
unfolding entry_at
entry_at-none [] path h = refl
entry_at-none (d ∷ ds) path h = ground (arith, entry_at-none ds path)

pub includes-++ :
    (p : FilePath) (xs ys : List FilePath)
    → includes p (xs ++ ys) ≡ (includes p xs || includes p ys)
includes-++ p [] ys = refl
includes-++ p (x ∷ xs) ys = ground (arith, includes-++ p xs ys)

-- Whether a path is in the set, or was seen before.
pub includes-path_set :
    (p : FilePath) (seen xs : List FilePath)
    → (includes p seen || includes p (path_set seen xs)) ≡ (includes p seen || includes p xs)
includes-path_set p seen [] = refl
includes-path_set p seen (x ∷ xs) = ground (
  arith,
  path_beq_iff x p,
  includes-path_set p seen xs,
  includes-path_set p (x ∷ seen) xs,
  λ (h : x ≡ p). ap (λ y. includes y seen) h,
)

module _ (path_before : FilePath → FilePath → Bool) where
  includes-insert_path :
      (p q : FilePath) (xs : List FilePath)
      → includes p (insert_path path_before q xs) ≡ (q == p || includes p xs)
  includes-insert_path p q [] = refl
  includes-insert_path p q (x ∷ xs) = ground (arith, includes-insert_path p q xs)

  pub includes-sort_paths :
      (p : FilePath) (xs : List FilePath) → includes p (sort_paths path_before xs) ≡ includes p xs
  includes-sort_paths p [] = refl
  includes-sort_paths p (x ∷ xs) =
      ground (arith, includes-insert_path p x (sort_paths path_before xs), includes-sort_paths p xs)

-- What the operation made for a path does, as seen from the entries before and after.
module _ (path : FilePath) (before after : Option GitSnapshotEntry) where
  abbrev Effect : Result (Option CandidateOperation) → Type 0
  Effect (err e) = Unit
  Effect (ok none) = entry_view before ≡ entry_view after
  Effect (ok (some o)) = (operation_path o ≡ path) × (left_by o ≡ entry_view after)

abbrev pub SameWhereUnchanged : Option GitSnapshotEntry → Option GitSnapshotEntry → Type 0
SameWhereUnchanged (some old) (some new) =
    changed old new ≡ false → candidate_entry old ≡ candidate_entry new
SameWhereUnchanged _ _ = Unit

operation_for-Effect :
    (path : FilePath) (before after : Option GitSnapshotEntry)
    → SameWhereUnchanged before after
    → Effect path before after (operation_for path before after)
unfolding operation_for
operation_for-Effect path none none same = refl
operation_for-Effect path none (some new) same = elim (Result-cases (candidate_entry new)) [
  | inl (e, made) ↦ rw made (refl, ap some (sym made))
  | inr (e, failed) ↦ rw failed tt
]
operation_for-Effect path (some old) none same = elim (Result-cases (candidate_entry old)) [
  | inl (e, made) ↦ rw made (refl, refl)
  | inr (e, failed) ↦ rw failed tt
]
operation_for-Effect path (some old) (some new) same = elim (Bool-cases (changed old new)) [
  | inr unchanged ↦ rw unchanged (ap some (same unchanged))
  | inl different ↦ rw different (elim (Result-cases (candidate_entry old)) [
    | inr (e, failed) ↦ rw failed tt
    | inl (d, found) ↦ rw found (elim (Result-cases (candidate_entry new)) [
      | inr (e, failed) ↦ rw failed tt
      | inl (e, made) ↦ rw made (refl, ap some (sym made))
    ])
  ])
]

-- The view after an operation, or none.
abbrev step : Option CandidateOperation → View → View
step none view = view
step (some o) view = λ p. if operation_path o == p then left_by o else view p

carry_out-pushed :
    (o : Option CandidateOperation) (rest : List CandidateOperation) (v : View) (q : FilePath)
    → carry_out (pushed rest o) v q ≡ carry_out rest (step o v) q
carry_out-pushed none rest v q = refl
carry_out-pushed (some o) rest v q = refl

-- The operations of a path and the paths after it.
pub operations_at-cons :
    (before after : List GitSnapshotEntry) (p : FilePath) (ps : List FilePath)
    (ops : List CandidateOperation)
    → operations_at before after (p ∷ ps) ≡ ok ops
    → (o : Option CandidateOperation) × (rest : List CandidateOperation) × (operation_for p
          (entry_at before p)
          (entry_at after p)
        ≡ ok o)
      × (operations_at before after ps ≡ ok rest)
      × (pushed rest o ≡ ops)
unfolding operations_at
operations_at-cons before after p ps ops made =
    let (o, one, then_rest) =
      >>=-eq-ok (operation_for p (entry_at before p) (entry_at after p))
        (λ o. operations_at before after ps >>= λ rest. ok (pushed rest o)) made in
    let (rest, others, joined) =
      >>=-eq-ok (operations_at before after ps) (λ rest. ok (pushed rest o)) then_rest in
    (o, rest, one, others, ok-injective (pushed rest o) ops joined)

either_test {ℓ} :
    {A : Type ℓ} (a b : Bool) (x y : A)
    → (if b then x else (if a then x else y)) ≡ (if a || b then x else y)
either_test a b x y = ground arith

module _ (before after : List GitSnapshotEntry)
    (same : (p : FilePath) → SameWhereUnchanged (entry_at before p) (entry_at after p))
    (q : FilePath) where
  abbrev pub IsBetween : Option (Result CandidateEntry) → Type 0
  IsBetween x = (x ≡ content_at before q) ⊎ (x ≡ content_at after q)

  -- What is made for a path takes a view between the two to the new one at that path.
  step-at :
      (p : FilePath) (o : Option CandidateOperation) (v : View)
      → Effect p (entry_at before p) (entry_at after p) (ok o)
      → IsBetween (v q)
      → step o v q ≡ (if p == q then content_at after q else v q)
  step-at p none v effect between = elim (Bool-cases (p == q)) [
    | inr other ↦ rw other refl
    | inl here ↦
        let there =
          subst (λ r. content_at before r ≡ content_at after r) ((path_beq_iff p q).0 here)
            effect in
        rw here (elim between [ inl old ↦ old ∙ there | inr new ↦ new ])
  ]
  step-at p (some o) v effect between = elim (Bool-cases (p == q)) [
    | inr other ↦ rw (effect.0, other) refl
    | inl here ↦ rw (effect.0, here) (effect.1 ∙ ap (content_at after) ((path_beq_iff p q).0 here))
  ]

  chosen-IsBetween :
      (b : Bool) (x : Option (Result CandidateEntry))
      → IsBetween x
      → IsBetween (if b then content_at after q else x)
  chosen-IsBetween true x between = inr refl
  chosen-IsBetween false x between = between

  pub carry_out-operations_at :
      (ps : List FilePath) (ops : List CandidateOperation) (v : View)
      → operations_at before after ps ≡ ok ops
      → IsBetween (v q)
      → carry_out ops v q ≡ (if includes q ps then content_at after q else v q)
  unfolding operations_at
  carry_out-operations_at [] ops v made between =
      ap (λ l. carry_out l v q) (sym (ok-injective [] ops made))
  carry_out-operations_at (p ∷ ps) ops v made between =
      let (o, rest, one, others, joined) = operations_at-cons before after p ps ops made in
      let effect =
        subst (Effect p (entry_at before p) (entry_at after p)) one
          (operation_for-Effect p (entry_at before p) (entry_at after p) (same p)) in
      let at = step-at p o v effect between in
      let still = subst IsBetween (sym at) (chosen-IsBetween (p == q) (v q) between) in
      ap (λ l. carry_out l v q) (sym joined)
      ∙ carry_out-pushed o rest v q
      ∙ carry_out-operations_at ps rest (step o v) others still
      ∙ ap (λ x. if includes q ps then content_at after q else x) at
      ∙ either_test (p == q) (includes q ps) (content_at after q) (v q)
