-- ===== src/State/Attempts.antt =====
-- packages/state-store/src/schema.ts: changes of the attempts of a run that `runRecordSchema` goes on
-- accepting.
use ai_smart_flow.Shared.{
  ◌≡◌, refl, ap, ℕ, ◌≤◌, Bool, true, false, String, List, [], ◌∷◌, map, Option, none, some, not,
  every, last, distinct, leb, arith, Bool-cases, &&-left, &&-right, &&-intro, ◌∙◌, text_eq, inl,
  inr,
}
use ai_smart_flow.Protocol.Phase.{is_active}
use ai_smart_flow.Protocol.Records.{WorkerAttempt}
use ai_smart_flow.Protocol.Refine.{refine_attempt}
use ai_smart_flow.State.Records.{RunRecord}
use ai_smart_flow.State.Refine.{active_attempts, refine_run}

abbrev ids : List WorkerAttempt → List String
ids attempts = map (λ (a : WorkerAttempt). a.attempt_id) attempts

abbrev pub worker_idle : Option WorkerAttempt → Bool
worker_idle none = true
worker_idle (some a) = not (is_active a.status)

abbrev pub changed_option :
    (WorkerAttempt → WorkerAttempt) → Option WorkerAttempt → Option WorkerAttempt
changed_option change none = none
changed_option change (some a) = some (change a)

leb_mono : (a b : ℕ) → a ≤ b → leb b 1 ≡ true → leb a 1 ≡ true
leb_mono a b h k = ground arith

module _ (change : WorkerAttempt → WorkerAttempt)
    (accepted : (a : WorkerAttempt) → refine_attempt a ≡ true → refine_attempt (change a) ≡ true)
    (same_id : (a : WorkerAttempt) → (change a).attempt_id ≡ a.attempt_id)
    (inactive : (a : WorkerAttempt)
      → is_active a.status ≡ false
      → is_active (change a).status ≡ false) where
  changed-refine :
      (attempts : List WorkerAttempt)
      → every refine_attempt attempts ≡ true
      → every refine_attempt (map change attempts) ≡ true
  changed-refine [] h = refl
  changed-refine (a ∷ rest) h =
      &&-intro (accepted a (&&-left _ _ h)) (changed-refine rest (&&-right _ _ h))

  changed-ids : (attempts : List WorkerAttempt) → ids (map change attempts) ≡ ids attempts
  changed-ids [] = refl
  changed-ids (a ∷ rest) = simp (same_id a, changed-ids rest)

  changed-active-le :
      (attempts : List WorkerAttempt)
      → active_attempts (map change attempts) ≤ active_attempts attempts
  changed-active-le [] = omega arith
  changed-active-le (a ∷ rest) = elim (Bool-cases (is_active a.status)) [
    | inl going ↦ rw going (elim (Bool-cases (is_active (change a).status)) [
      | inl on ↦ rw on (omega (arith, changed-active-le rest))
      | inr off ↦ rw off (omega (arith, changed-active-le rest))
    ])
    | inr idle ↦ rw (idle, inactive a idle) (changed-active-le rest)
  ]

  -- Changed attempts of an accepted run make an accepted run.
  pub changed_attempts-refine :
      (run : RunRecord)
      → refine_run run ≡ true
      → refine_run (record run { worker_attempts = map change run.worker_attempts }) ≡ true
  unfolding refine_run
  changed_attempts-refine run h =
      let to_leb = &&-left _ _ h in
      let to_ids = &&-left _ _ to_leb in
      &&-intro
        (&&-intro
          (&&-intro
            (&&-intro (&&-left _ _ (&&-left _ _ to_ids))
              (changed-refine run.worker_attempts (&&-right _ _ (&&-left _ _ to_ids))))
            (ap distinct (changed-ids run.worker_attempts) ∙ &&-right _ _ to_ids))
          (leb_mono _ _ (changed-active-le run.worker_attempts) (&&-right _ _ to_leb)))
        (&&-right _ _ h)

  pub last-changed :
      (attempts : List WorkerAttempt)
      → last (map change attempts) ≡ changed_option change (last attempts)
  last-changed [] = refl
  last-changed (a ∷ []) = refl
  last-changed (a ∷ b ∷ rest) = last-changed (b ∷ rest)
