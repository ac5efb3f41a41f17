-- ===== src/Review/Progress.antt =====
-- What the assessments of a repair say.
use ai_smart_flow.Shared.{
  ℕ, ◌+◌, ◌≤◌, ◌≡◌, ◌≢◌, ◌↔◌, refl, true, false, String, List, [], ◌∷◌, ◌++◌, Option, none, some,
  not, ◌==◌, text_eq, nat_eq, length, any, includes, opt_eq, opt_eq_self, get, All, arith, inl, inr,
  Bool-cases, length-append, subst, ◌∙◌,
}
use ai_smart_flow.Protocol.Records.{ReviewIssue, TaskReview}
use ai_smart_flow.Review.Repair.{
  ManifestTask, manifest_task, issue_reasons, task_reasons, scope_reasons, assess_repair_scope,
  RepairRound, stable_problems, is_strict_subset, relevant_paths_changed, assess_repair_progress,
  to_set, issue_paths,
}

-- Every issue lies in a file of the approved task.
abbrev pub IsWithin : List String → List ReviewIssue → Type 0
IsWithin file_paths issues = All (λ (i : ReviewIssue). includes i.path file_paths ≡ true) issues

abbrev pub IsApproved : List ManifestTask → TaskReview → Type 0
IsApproved manifest task =
    (known : ManifestTask) × (manifest_task manifest task.id ≡ some known)
    × IsWithin known.file_paths task.issues

issue_reasons-IsWithin :
    (id : String) (files : List String) (issues : List ReviewIssue)
    → (length (issue_reasons id files issues) ≡ 0) ↔ IsWithin files issues
issue_reasons-IsWithin id files [] = ((λ h. tt), λ h. refl)
issue_reasons-IsWithin id files (i ∷ is) = elim (Bool-cases (includes i.path files)) [
  | inl inside ↦
      let rest = issue_reasons-IsWithin id files is in
      simp inside ((λ h. (refl, rest.0 h)), λ h. rest.1 h.1)
  | inr outside ↦ simp outside ((λ h. absurd (omega (arith, h))), λ h. cc)
]

task_reasons-IsApproved :
    (manifest : List ManifestTask) (task : TaskReview) (known : Option ManifestTask)
    → manifest_task manifest task.id ≡ known
    → (length (task_reasons task known) ≡ 0) ↔ IsApproved manifest task
task_reasons-IsApproved manifest task none e =
    ((λ h. absurd (omega (arith, h))), λ (known, found, within). cc)
task_reasons-IsApproved manifest task (some known) e =
    let same = issue_reasons-IsWithin task.id known.file_paths task.issues in
    (
      (λ h. (known, e, same.0 h)),
      λ (known', found, within).
          let is_known : known' ≡ known = cc in
          same.1 (subst (λ (k : ManifestTask). IsWithin k.file_paths task.issues) is_known within),
    )

scope_reasons-IsApproved :
    (manifest : List ManifestTask) (tasks : List TaskReview)
    → (length (scope_reasons manifest tasks) ≡ 0) ↔ All (IsApproved manifest) tasks
scope_reasons-IsApproved manifest [] = ((λ h. tt), λ h. refl)
scope_reasons-IsApproved manifest (task ∷ tasks) =
    let first = task_reasons-IsApproved manifest task (manifest_task manifest task.id) refl in
    let rest = scope_reasons-IsApproved manifest tasks in
    let sum =
      length-append (task_reasons task (manifest_task manifest task.id))
        (scope_reasons manifest tasks) in
    (
      (λ h. (first.0 (omega (arith, h, sum)), rest.0 (omega (arith, h, sum)))),
      λ (a, b). omega (arith, sum, first.1 a, rest.1 b),
    )

-- A review is in scope exactly when every task of it is an approved one, and every issue of the task
-- lies in a file of the approved task with that id.
pub assess_scope-IsApproved_iff :
    (manifest : List ManifestTask) (tasks : List TaskReview)
    → ((assess_repair_scope manifest tasks).in_scope ≡ true) ↔ All (IsApproved manifest) tasks
unfolding assess_repair_scope
assess_scope-IsApproved_iff manifest tasks =
    let same = scope_reasons-IsApproved manifest tasks in
    ((λ h. same.0 (ground (arith, h))), λ h. ground (arith, same.1 h))

-- The count after a sequence of rounds, each assessed against the one before it.
abbrev pub assess_rounds : RepairRound → List RepairRound → ℕ → ℕ → ℕ
assess_rounds previous [] count threshold = count
assess_rounds previous (round ∷ rounds) count threshold =
    assess_rounds round rounds
      (assess_repair_progress previous round count threshold).no_progress_count threshold

none_changed :
    (round : RepairRound) (paths : List String)
    → any
        (λ path.
          not (opt_eq (get round.relevant_path_hashes path) (get round.relevant_path_hashes path)))
        paths
      ≡ false
none_changed round [] = refl
none_changed round (path ∷ paths) =
    rw (opt_eq_self (get round.relevant_path_hashes path)) (none_changed round paths)

unchanged : (round : RepairRound) → relevant_paths_changed round round ≡ false
unfolding relevant_paths_changed
unchanged round = none_changed round (to_set (issue_paths (round.tasks ++ round.tasks)))

not_smaller : (problems : List String) → is_strict_subset problems problems ≡ false
unfolding is_strict_subset
not_smaller problems = ground arith

repeated_round :
    (round : RepairRound) (count threshold : ℕ)
    → (length (stable_problems round) == 0) ≡ false
    → (assess_repair_progress round round count threshold).no_progress_count ≡ count + 1
unfolding assess_repair_progress
repeated_round round count threshold problems =
    simp (problems, not_smaller (stable_problems round), unchanged round)

repeated_pause :
    (round : RepairRound) (count threshold : ℕ)
    → (length (stable_problems round) == 0) ≡ false
    → ((assess_repair_progress round round count threshold).pause_required ≡ true)
      ↔ (threshold ≤ count + 1)
unfolding assess_repair_progress
repeated_pause round count threshold problems =
    simp (problems, not_smaller (stable_problems round), unchanged round)
      ((λ h. ground (arith, h)), λ h. ground (arith, h))

nonempty : (xs : List String) → xs ≢ [] → (length xs == 0) ≡ false
nonempty [] h = absurd (h refl)
nonempty (x ∷ xs) h = ground arith

repeated_rounds :
    (round : RepairRound) (rounds : List RepairRound) (count threshold : ℕ)
    → (length (stable_problems round) == 0) ≡ false
    → All (λ r. r ≡ round) rounds
    → assess_rounds round rounds count threshold ≡ count + length rounds
repeated_rounds round [] count threshold problems same = omega arith
repeated_rounds round (r ∷ rs) count threshold problems (is, same) =
    rw (is, repeated_round round count threshold problems)
      (repeated_rounds round rs (count + 1) threshold problems same ∙ omega arith)

-- Rounds that repeat one round with problems, however many: each adds one to the count of rounds
-- without progress, and the next such round requires a pause exactly when the count, itself included,
-- reaches the threshold.
pub assess_rounds-repeated :
    (round : RepairRound) (rounds : List RepairRound) (count threshold : ℕ)
    → stable_problems round ≢ []
    → All (λ r. r ≡ round) rounds
    → (assess_rounds round rounds count threshold ≡ count + length rounds)
      × (((assess_repair_progress round round (count + length rounds) threshold).pause_required
            ≡ true)
          ↔ (threshold ≤ count + length rounds + 1))
assess_rounds-repeated round rounds count threshold problems same =
    let some_problem = nonempty (stable_problems round) problems in
    (
      repeated_rounds round rounds count threshold some_problem same,
      repeated_pause round (count + length rounds) threshold some_problem,
    )
