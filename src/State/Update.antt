-- ===== src/State/Update.antt =====
-- packages/state-store/src/schema.ts: changes of one run that `projectStateSchema` goes on accepting.
use ai_smart_flow.Shared.{
  ◌≡◌, refl, sym, ap, ◌∙◌, subst, inl, inr, Bool, true, false, String, Option, none, some, ◌&&◌,
  ◌||◌, ◌==◌, text_eq, if◌then◌else◌, Dict, get, put, drop_key, every_entry, every_entry-get,
  get-put, get-drop_key, distinct_keys, every_entry-map, every_entry-put-map, every_entry-and,
  every_entry-drop_key, opt_eq→eq, arith, eq_iff, Bool-cases, &&-left, &&-right, &&-intro,
  or-cancel, or-intro,
}
use ai_smart_flow.Protocol.Phase.{is_terminal}
use ai_smart_flow.State.Records.{RunRecord, ProjectState, PublishLease}
use ai_smart_flow.State.Refine.{
  refine_run, refine_state, binding_matches, owns_binding, lease_run_matches, lease_matches,
}

apart : (path other : String) → (path == other) ≡ false → (other == path) ≡ true → ⊥
apart path other h k = ground (arith, eq_iff path other, eq_iff other path)

flipped : (a b : String) → (a == b) ≡ false → (b == a) ≡ false
flipped a b h = ground (arith, eq_iff a b, eq_iff b a)

differ : (b : Bool) → b ≡ true → b ≡ false → ⊥
differ b h k = ground arith

-- The run that holds the publish lease.
abbrev pub lease_held_by : Option PublishLease → String → Bool
lease_held_by none job_id = false
lease_held_by (some lease) job_id = lease.job_id == job_id

-- The clauses of the schema.
module _ (t : ProjectState) where
  refine-intro :
      every_entry (λ key run. refine_run run && key == run.job_id) t.runs ≡ true
      → every_entry
          (λ task_path j. binding_matches task_path (get t.runs j))
          t.active_runs_by_task_path
        ≡ true
      → every_entry
          (λ key run. is_terminal run.phase || owns_binding t.active_runs_by_task_path run)
          t.runs
        ≡ true
      → lease_matches t t.publish_lease ≡ true
      → refine_state t ≡ true
  unfolding refine_state
  refine-intro a b c d = &&-intro (&&-intro (&&-intro a b) c) d

pub valid_lease :
    (s : ProjectState) → refine_state s ≡ true → lease_matches s s.publish_lease ≡ true
unfolding refine_state
valid_lease s valid = &&-right _ _ valid

module _ (s : ProjectState) (job_id : String) (old new : RunRecord)
    (found : get s.runs job_id ≡ some old) (known : (job_id == new.job_id) ≡ true)
    (same_path : new.canonical_task_path ≡ old.canonical_task_path)
    (accepted : refine_run new ≡ true) (keys : distinct_keys s.runs ≡ true)
    (valid : refine_state s ≡ true) where
  abbrev runs_put : Dict RunRecord
  runs_put = put s.runs job_id new

  runs_valid : every_entry (λ key run. refine_run run && key == run.job_id) s.runs ≡ true
  unfolding refine_state
  runs_valid = &&-left _ _ (&&-left _ _ (&&-left _ _ valid))

  bindings_valid :
      every_entry
        (λ task_path j. binding_matches task_path (get s.runs j))
        s.active_runs_by_task_path
      ≡ true
  unfolding refine_state
  bindings_valid = &&-right _ _ (&&-left _ _ (&&-left _ _ valid))

  owners_valid :
      every_entry
        (λ key run. is_terminal run.phase || owns_binding s.active_runs_by_task_path run)
        s.runs
      ≡ true
  unfolding refine_state
  owners_valid = &&-right _ _ (&&-left _ _ valid)

  old_key : (job_id == old.job_id) ≡ true
  old_key = &&-right _ _ (every_entry-get _ s.runs job_id old runs_valid found)

  put_run : (j : String) → get runs_put j ≡ (if job_id == j then some new else get s.runs j)
  put_run j = get-put s.runs job_id new j

  -- The first clause of the schema: every run is accepted, under its own key.
  put-runs :
      every_entry (λ key run. refine_run run && key == run.job_id) (put s.runs job_id new) ≡ true
  put-runs =
      every_entry-put-map _ _ s.runs job_id new runs_valid keys (&&-intro accepted known)
        (λ j v other h. h)

  same_job : new.job_id ≡ old.job_id
  same_job = sym ((eq_iff job_id new.job_id).0 known) ∙ (eq_iff job_id old.job_id).0 old_key

  put_here : (j : String) → (job_id == j) ≡ true → get runs_put j ≡ some new
  put_here j here = put_run j ∙ rw here refl

  put_there : (j : String) → (job_id == j) ≡ false → get runs_put j ≡ get s.runs j
  put_there j there = put_run j ∙ rw there refl

  old_here : (j : String) → (job_id == j) ≡ true → get s.runs j ≡ some old
  old_here j here = ap (get s.runs) (sym ((eq_iff job_id j).0 here)) ∙ found

  module _ (running : is_terminal old.phase ≡ false) where
    -- The path of a run that is not terminal is bound to it.
    old_bound : get s.active_runs_by_task_path old.canonical_task_path ≡ some job_id
    old_bound =
        opt_eq→eq _ _ (or-cancel running (every_entry-get _ s.runs job_id old owners_valid found))
        ∙ ap some (sym ((eq_iff job_id old.job_id).0 old_key))

    kept-binding :
        is_terminal new.phase ≡ false
        → (path j : String) → binding_matches path (get s.runs j) ≡ true
        → binding_matches path (get runs_put j) ≡ true
    kept-binding still path j h = elim (Bool-cases (job_id == j)) [
      | inr there ↦ rw (put_there j there) h
      | inl here ↦ rw (put_here j here, same_path, still) (rw (old_here j here, running) at h)
    ]

    kept-lease :
        (j : String)
        → lease_run_matches s.active_runs_by_task_path (get s.runs j) ≡ true
        → lease_run_matches s.active_runs_by_task_path (get runs_put j) ≡ true
    kept-lease j h = elim (Bool-cases (job_id == j)) [
      | inr there ↦ rw (put_there j there) h
      | inl here ↦ rw (put_here j here, same_path, same_job) (rw (old_here j here) at h)
    ]

    kept-owner : owns_binding s.active_runs_by_task_path new ≡ true
    kept-owner = rw (same_path, old_bound) known

    kept-lease-matches :
        (lease : Option PublishLease)
        → lease_matches s lease ≡ true
        → (t : ProjectState) → t.runs ≡ put s.runs job_id new
        → t.active_runs_by_task_path ≡ s.active_runs_by_task_path
        → lease_matches t lease ≡ true
    kept-lease-matches none h t runs active = refl
    kept-lease-matches (some lease) h t runs active = rw (active, runs) (kept-lease lease.job_id h)

    -- The schema goes on accepting a state where a run that is not terminal is replaced by another
    -- that is not, of the same task, the bindings stay, and the lease fits the bindings.
    pub keep_run-refine :
        is_terminal new.phase ≡ false
        → (lease : Option PublishLease) → lease_matches s lease ≡ true
        → (t : ProjectState) → t.runs ≡ put s.runs job_id new
        → t.active_runs_by_task_path ≡ s.active_runs_by_task_path
        → t.publish_lease ≡ lease
        → refine_state t ≡ true
    keep_run-refine still lease matches t runs active at =
        refine-intro t (rw runs put-runs)
          (rw (runs, active)
            (every_entry-map _ _ s.active_runs_by_task_path (λ path j. kept-binding still path j)
              bindings_valid))
          (rw (runs, active)
            (every_entry-put-map _ _ s.runs job_id new owners_valid keys
              (or-intro (is_terminal new.phase) kept-owner) (λ j v other h. h)))
          (rw at (kept-lease-matches lease matches t runs active))

    abbrev unbound : Dict String
    unbound = drop_key s.active_runs_by_task_path old.canonical_task_path

    -- A binding of another path leads to another run.
    ended-binding :
        (path j : String)
        → (path == old.canonical_task_path) ≡ false
        → binding_matches path (get s.runs j) ≡ true
        → binding_matches path (get runs_put j) ≡ true
    ended-binding path j other h = elim (Bool-cases (job_id == j)) [
      | inr there ↦ rw (put_there j there) h
      | inl here ↦
          absurd
            (apart path old.canonical_task_path other (&&-left _ _ (rw (old_here j here) at h)))
    ]

    -- Another run that is bound has another path.
    other-owner :
        (run : RunRecord)
        → (run.job_id == job_id) ≡ false
        → owns_binding s.active_runs_by_task_path run ≡ true
        → owns_binding unbound run ≡ true
    other-owner run other h =
        elim (Bool-cases (old.canonical_task_path == run.canonical_task_path)) [
          | inr there ↦
              rw
                (
                  get-drop_key s.active_runs_by_task_path old.canonical_task_path
                      run.canonical_task_path,
                  there,
                )
                h
          | inl here ↦
              let same = (eq_iff old.canonical_task_path run.canonical_task_path).0 here in
              let bound = ap (get s.active_runs_by_task_path) (sym same) ∙ old_bound in
              absurd
                (differ (job_id == run.job_id) (rw bound at h) (flipped run.job_id job_id other))
        ]

    ended-owner :
        (j : String) (run : RunRecord)
        → (j == job_id) ≡ false
        → (is_terminal run.phase || owns_binding s.active_runs_by_task_path run) ≡ true
        → (j == run.job_id) ≡ true
        → (is_terminal run.phase || owns_binding unbound run) ≡ true
    ended-owner j run other h key = elim (Bool-cases (is_terminal run.phase)) [
      | inl ended ↦ rw ended refl
      | inr going ↦ or-intro (is_terminal run.phase) (
          other-owner run (subst (λ x. (x == job_id) ≡ false) ((eq_iff j run.job_id).0 key) other)
            (or-cancel going h))
    ]

    ended-lease :
        (j : String) (found_run : Option RunRecord)
        → get s.runs j ≡ found_run
        → (j == job_id) ≡ false
        → lease_run_matches s.active_runs_by_task_path found_run ≡ true
        → lease_run_matches unbound found_run ≡ true
    ended-lease j none e other h = absurd (ground arith)
    ended-lease j (some run) e other h =
        let key = &&-right _ _ (every_entry-get _ s.runs j run runs_valid e) in
        other-owner run (subst (λ x. (x == job_id) ≡ false) ((eq_iff j run.job_id).0 key) other) h

    ended-lease-matches :
        (lease : Option PublishLease)
        → lease_matches s lease ≡ true
        → lease_held_by lease job_id ≡ false
        → (t : ProjectState) → t.runs ≡ put s.runs job_id new
        → t.active_runs_by_task_path ≡ unbound
        → lease_matches t lease ≡ true
    ended-lease-matches none h free t runs active = refl
    ended-lease-matches (some lease) h free t runs active =
        rw (active, runs, put_there lease.job_id (flipped lease.job_id job_id free))
          (ended-lease lease.job_id (get s.runs lease.job_id) refl free h)

    -- The schema goes on accepting a state where a run that is not terminal is replaced by one of
    -- the same task that is, its binding is removed, and the lease is another run's or free.
    pub end_run-refine :
        is_terminal new.phase ≡ true
        → (lease : Option PublishLease) → lease_matches s lease ≡ true
        → lease_held_by lease job_id ≡ false
        → (t : ProjectState) → t.runs ≡ put s.runs job_id new
        → t.active_runs_by_task_path ≡ unbound
        → t.publish_lease ≡ lease
        → refine_state t ≡ true
    end_run-refine ended lease matches free t runs active at =
        refine-intro t (rw runs put-runs)
          (rw (runs, active)
            (every_entry-drop_key _ _ s.active_runs_by_task_path old.canonical_task_path
              bindings_valid (λ path j other h. ended-binding path j other h)))
          (rw (runs, active)
            (every_entry-put-map _ _ s.runs job_id new
              (every_entry-and _ _ s.runs runs_valid owners_valid) keys (rw ended refl)
              (λ j run other h.
                ended-owner j run other (&&-right _ _ h) (&&-right _ _ (&&-left _ _ h)))))
          (rw at (ended-lease-matches lease matches free t runs active))
