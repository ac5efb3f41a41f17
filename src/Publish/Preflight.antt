-- ===== src/Publish/Preflight.antt =====
-- What the first preflight of `apply` says of the directory.
use ai_smart_flow.Shared.{
  ℕ, ◌≡◌, ◌≢◌, ◌⊎◌, ◌∙◌, ap, ◌++◌, Option, true, if◌then◌else◌, refl, Bool, false, String, List, [],
  ◌∷◌, none, some, text_eq, nat_eq, arith, All, inl, inr, sym, opt_eq→eq,
}
use ai_smart_flow.Errors.{Result, ok, >>=-eq-ok, ok-injective}
use ai_smart_flow.Publish.Operations.{
  resolved, FilePath, ApplyOperation, OldKind, canonical_operations,
}
use ai_smart_flow.Publish.Target.{
  Node, file, directory, symlink, ConflictReason, unsafe_path, after_segment, symlink_below,
  add_conflict, Tree, Observed, absent, other, found, Conflict, preflight_operations,
  preflight_reason, path_contains_symlink, observed_file, collect, compare_old,
}

-- What an operation expects to find: nothing, or a file with its old hash and mode.
abbrev ExpectsOld : OldKind → ApplyOperation → Observed → Type 0
ExpectsOld OldKind.absent o seen = seen ≡ absent
ExpectsOld OldKind.file o seen =
    (h : String) × (m : ℕ) × (seen ≡ found h m)
    × (o.expected_old_hash ≡ some h)
    × (o.expected_old_mode ≡ some m)

-- From the directory `current` on, the segments lead through directories, to the last of them or to
-- one that is not there; and the last one is no link.
abbrev pub IsClear : Tree → FilePath → List String → Type 0
IsClear tree current [] = Unit
IsClear tree current (part ∷ []) = tree (current ++ part ∷ []) ≢ some symlink
IsClear tree current (part ∷ next ∷ parts) =
    (tree (current ++ part ∷ []) ≡ none)
    ⊎ ((tree (current ++ part ∷ []) ≡ some directory)
        × IsClear tree (current ++ part ∷ []) (next ∷ parts))

-- The directory is as the operation expects: a clear way, and the old file or none.
pub record IsExpected (digest : List ℕ → String) (tree : Tree) (o : ApplyOperation) : Type 0 where
  pub way : IsClear tree [] (resolved o.path)
  pub old : ExpectsOld o.expected_old_kind o (observed_file digest tree o.path)

segment_clear :
    (node : Option Node) → after_segment node [] (ok false) ≡ ok false → node ≢ some symlink
segment_clear none h = λ e. absurd (ground arith)
segment_clear (some symlink) h = λ e. absurd (ground arith)
segment_clear (some directory) h = λ e. absurd (ground arith)
segment_clear (some (file bytes mode)) h = λ e. absurd (ground arith)

segment_passed :
    (node : Option Node) (part : String) (parts : List String) (deeper : Result Bool)
    → after_segment node (part ∷ parts) deeper ≡ ok false
    → (node ≡ none) ⊎ ((node ≡ some directory) × (deeper ≡ ok false))
segment_passed none part parts deeper h = inl refl
segment_passed (some symlink) part parts deeper h = absurd (ground arith)
segment_passed (some directory) part parts deeper h = inr (refl, h)
segment_passed (some (file bytes mode)) part parts deeper h = absurd (ground arith)

walk-IsClear :
    (tree : Tree) (current : FilePath) (parts : List String)
    → symlink_below tree current parts ≡ ok false
    → IsClear tree current parts
walk-IsClear tree current [] h = tt
walk-IsClear tree current (part ∷ []) h = segment_clear (tree (current ++ part ∷ [])) h
walk-IsClear tree current (part ∷ next ∷ parts) h =
    elim (segment_passed (tree (current ++ part ∷ [])) next parts
      (symlink_below tree (current ++ part ∷ []) (next ∷ parts)) h) [
        | inl missing ↦ inl missing
        | inr (here, deeper) ↦
            inr (here, walk-IsClear tree (current ++ part ∷ []) (next ∷ parts) deeper)
      ]

reason_old :
    (digest : List ℕ → String) (o : ApplyOperation) (kind : OldKind) (seen : Observed)
    → compare_old digest kind o seen ≡ none
    → ExpectsOld kind o seen
reason_old digest o OldKind.absent absent h = refl
reason_old digest o OldKind.absent other h = absurd (ground arith)
reason_old digest o OldKind.absent (found hash mode) h = absurd (ground arith)
reason_old digest o OldKind.file absent h = absurd (ground arith)
reason_old digest o OldKind.file other h = absurd (ground arith)
reason_old digest o OldKind.file (found hash mode) h = (
  hash,
  mode,
  refl,
  sym (opt_eq→eq (some hash) o.expected_old_hash (ground arith)),
  sym (opt_eq→eq (some mode) o.expected_old_mode (ground arith)),
)

no_link :
    (link : Bool) (reason : Option ConflictReason)
    → (if link then some unsafe_path else reason) ≡ none
    → (link ≡ false) × (reason ≡ none)
no_link true reason h = absurd (ground arith)
no_link false reason h = (refl, h)

no_reason :
    (digest : List ℕ → String) (tree : Tree) (o : ApplyOperation)
    → preflight_reason digest tree o ≡ ok none
    → IsExpected digest tree o
unfolding preflight_reason path_contains_symlink
no_reason digest tree o h =
    let (link, walked, answer) = >>=-eq-ok (path_contains_symlink tree o.path) _ h in
    let (free, same) = no_link link _ (ok-injective _ _ answer) in
    record {
      way = walk-IsClear tree [] (resolved o.path) (walked ∙ ap ok free);
      old = reason_old digest o o.expected_old_kind (observed_file digest tree o.path) same;
    }

not_added :
    (digest : List ℕ → String) (path : FilePath) (why : Option ConflictReason)
    (conflicts : List Conflict)
    → add_conflict digest path why conflicts ≡ []
    → (why ≡ none) × (conflicts ≡ [])
not_added digest path none conflicts h = (refl, h)
not_added digest path (some reason) conflicts h = absurd (ground arith)

none_collected :
    (digest : List ℕ → String) (tree : Tree) (os : List ApplyOperation)
    → collect digest (preflight_reason digest tree) os ≡ ok []
    → All (IsExpected digest tree) os
none_collected digest tree [] h = tt
none_collected digest tree (o ∷ os) h =
    let (why, e, h1) = >>=-eq-ok (preflight_reason digest tree o) _ h in
    let (conflicts, rest, answer) =
      >>=-eq-ok (collect digest (preflight_reason digest tree) os) _ h1 in
    let (none_here, empty) = not_added digest o.path why conflicts (ok-injective _ _ answer) in
    (
      no_reason digest tree o (e ∙ ap ok none_here),
      none_collected digest tree os (rest ∙ ap ok empty),
    )

-- A preflight without conflicts: the operations are well formed, and each finds the directory as it
-- expects. The way to its path leads through directories only, as far as it is there, and ends in no
-- link; there is the file with its old hash and mode, or nothing.
pub preflight_clean :
    (digest : List ℕ → String) (sorts_before : FilePath → FilePath → Bool) (tree : Tree)
    (given : List ApplyOperation)
    → preflight_operations digest sorts_before tree given ≡ ok []
    → (os : List ApplyOperation) × (canonical_operations sorts_before given ≡ ok os)
      × All (IsExpected digest tree) os
unfolding preflight_operations
preflight_clean digest sorts_before tree given h =
    let (os, e, rest) = >>=-eq-ok (canonical_operations sorts_before given) _ h in
    (os, e, none_collected digest tree os rest)
