-- ===== src/Review/Repair.antt =====
-- packages/review/src/repair-loop.ts: whether a review stays within the approved tasks, and whether a
-- repair round has made progress. A set is the list of its members without repetition.
use ai_smart_flow.Shared.{
  ℕ, ◌+◌, Bool, String, List, [], ◌∷◌, ◌++◌, map, Option, none, some, not, ◌&&◌, ◌||◌, ◌==◌,
  text_eq, nat_eq, if◌then◌else◌, length, every, any, includes, leb, ltb, opt_eq, Dict, get,
}
use Prim.Native.String.{◌++◌ as ◌<>◌}
use ai_smart_flow.Protocol.Records.{ReviewIssue, TaskReview}

-- The part of `ManifestTask` that is read here.
pub record ManifestTask : Type 0 where
  pub id : String
  pub file_paths : List String

abbrev pub or_earlier_task : Option ManifestTask → ManifestTask → String → Option ManifestTask
or_earlier_task (some later) task id = some later
or_earlier_task none task id = if task.id == id then some task else none

-- `manifestTasks.get(id)`: the last task with the id.
abbrev pub manifest_task : List ManifestTask → String → Option ManifestTask
manifest_task [] id = none
manifest_task (task ∷ tasks) id = or_earlier_task (manifest_task tasks id) task id

abbrev pub issue_reasons : String → List String → List ReviewIssue → List String
issue_reasons id file_paths [] = []
issue_reasons id file_paths (issue ∷ issues) =
    let rest = issue_reasons id file_paths issues in
    if includes issue.path file_paths
    then rest
    else ("REVIEW_ISSUE_PATH_OUT_OF_SCOPE:" <> id <> ":" <> issue.path) ∷ rest

abbrev pub task_reasons : TaskReview → Option ManifestTask → List String
task_reasons task none = ("REVIEW_TASK_OUT_OF_SCOPE:" <> task.id) ∷ []
task_reasons task (some known) = issue_reasons task.id known.file_paths task.issues

abbrev pub scope_reasons : List ManifestTask → List TaskReview → List String
scope_reasons manifest [] = []
scope_reasons manifest (task ∷ tasks) =
    task_reasons task (manifest_task manifest task.id) ++ scope_reasons manifest tasks

pub record RepairScopeAssessment : Type 0 where
  pub in_scope : Bool
  pub reasons : List String

unfoldable pub assess_repair_scope : List ManifestTask → List TaskReview → RepairScopeAssessment
assess_repair_scope manifest tasks =
    let reasons = scope_reasons manifest tasks in
    record { in_scope = length reasons == 0; reasons = reasons }

pub record RepairRound : Type 0 where
  pub failure_ids : List String
  pub tasks : List TaskReview
  pub relevant_path_hashes : Dict String

pub record RepairAssessment : Type 0 where
  pub no_progress_count : ℕ
  pub pause_required : Bool

-- `new Set(…)`
abbrev pub to_set : List String → List String
to_set [] = []
to_set (x ∷ xs) = let rest = to_set xs in if includes x rest then rest else x ∷ rest

abbrev pub issue_problems : String → List ReviewIssue → List String
issue_problems id [] = []
issue_problems id (issue ∷ issues) =
    ("issue:" <> id <> ":" <> issue.path) ∷ issue_problems id issues

abbrev pub task_problems : List TaskReview → List String
task_problems [] = []
task_problems (task ∷ tasks) = issue_problems task.id task.issues ++ task_problems tasks

unfoldable pub stable_problems : RepairRound → List String
stable_problems round =
    to_set (map (λ id. "failure:" <> id) round.failure_ids ++ task_problems round.tasks)

unfoldable pub is_strict_subset : List String → List String → Bool
is_strict_subset current previous =
    ltb (length current) (length previous) && every (λ item. includes item previous) current

abbrev pub issue_paths : List TaskReview → List String
issue_paths [] = []
issue_paths (task ∷ tasks) =
    map (λ (issue : ReviewIssue). issue.path) task.issues ++ issue_paths tasks

unfoldable pub relevant_paths_changed : RepairRound → RepairRound → Bool
relevant_paths_changed previous current =
    any
      (λ path.
        not
          (opt_eq (get previous.relevant_path_hashes path) (get current.relevant_path_hashes path)))
      (to_set (issue_paths (previous.tasks ++ current.tasks)))

unfoldable pub assess_repair_progress : RepairRound → RepairRound → ℕ → ℕ → RepairAssessment
assess_repair_progress previous current existing_no_progress_count no_progress_threshold =
    let current_problems = stable_problems current in
    let previous_problems = stable_problems previous in
    let problems_reduced = is_strict_subset current_problems previous_problems in
    let paths_changed = relevant_paths_changed previous current in
    let no_progress_count =
      if (length current_problems == 0 || problems_reduced) || paths_changed
      then 0
      else existing_no_progress_count + 1 in
    record {
      no_progress_count = no_progress_count;
      pause_required = leb no_progress_threshold no_progress_count;
    }
