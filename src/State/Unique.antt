-- ===== src/State/Unique.antt =====
-- packages/state-store/src/schema.ts: the runs of a task in a state that the schema accepts.
use ai_smart_flow.Shared.{
  some-injective, ◌≡◌, sym, ap, ◌∙◌, false, true, String, some, get, text_eq, eq_iff, opt_eq→eq,
  every_entry-get, &&-left, &&-right, or-cancel,
}
use ai_smart_flow.Protocol.Phase.{is_terminal}
use ai_smart_flow.State.Records.{RunRecord, ProjectState}
use ai_smart_flow.State.Refine.{refine_state}

-- A run that has not ended is the one that its task is bound to.
going-bound :
    (s : ProjectState) (a : String) (run : RunRecord)
    → refine_state s ≡ true
    → get s.runs a ≡ some run
    → is_terminal run.phase ≡ false
    → get s.active_runs_by_task_path run.canonical_task_path ≡ some a
unfolding refine_state
going-bound s a run valid found going =
    let owned =
      or-cancel going (every_entry-get _ s.runs a run (&&-right _ _ (&&-left _ _ valid)) found) in
    let key =
      every_entry-get _ s.runs a run (&&-left _ _ (&&-left _ _ (&&-left _ _ valid))) found in
    opt_eq→eq _ _ owned ∙ ap some (sym ((eq_iff a run.job_id).0 (&&-right _ _ key)))

-- In a state that the schema accepts, two runs of the same task that have both not ended are one.
pub going_unique :
    (s : ProjectState) (a b : String) (left right : RunRecord)
    → refine_state s ≡ true
    → get s.runs a ≡ some left
    → get s.runs b ≡ some right
    → is_terminal left.phase ≡ false
    → is_terminal right.phase ≡ false
    → left.canonical_task_path ≡ right.canonical_task_path
    → a ≡ b
going_unique s a b left right valid here there going going' same = some-injective a b (
    sym (going-bound s a left valid here going)
    ∙ ap (get s.active_runs_by_task_path) same
    ∙ going-bound s b right valid there going')
