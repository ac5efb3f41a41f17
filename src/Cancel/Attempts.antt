-- ===== src/Cancel/Attempts.antt =====
-- apps/daemon/src/cancel/cancel-manager.ts: the attempts of a run after `cancelActiveAttempt`.
use ai_smart_flow.Shared.{
  ◌≡◌, refl, inl, inr, true, false, String, List, Option, none, some, ◌==◌, text_eq, last,
  Bool-cases, beq_self,
}
use ai_smart_flow.Protocol.Phase.{is_active}
use ai_smart_flow.Protocol.Records.{WorkerAttempt}
use ai_smart_flow.Protocol.Refine.{refine_attempt}
use ai_smart_flow.State.Records.{RunRecord}
use ai_smart_flow.State.Refine.{refine_run}
use ai_smart_flow.State.Attempts.{worker_idle, changed_attempts-refine, last-changed}
use ai_smart_flow.Cancel.Manager.{
  canceled_attempt, cancel_last, cancel_active_attempt, canceled_run,
}

module _ (id ended_at : String) (a : WorkerAttempt) where
  canceled_attempt-refine :
      refine_attempt a ≡ true → refine_attempt (canceled_attempt id ended_at a) ≡ true
  unfolding refine_attempt
  canceled_attempt-refine h = elim (Bool-cases (a.attempt_id == id)) [
    | inl same ↦ rw same refl
    | inr other ↦ rw other h
  ]

  canceled_attempt-id : (canceled_attempt id ended_at a).attempt_id ≡ a.attempt_id
  canceled_attempt-id = elim (Bool-cases (a.attempt_id == id)) [
    | inl same ↦ rw same refl
    | inr other ↦ rw other refl
  ]

  canceled_attempt-inactive :
      is_active a.status ≡ false → is_active (canceled_attempt id ended_at a).status ≡ false
  canceled_attempt-inactive h = elim (Bool-cases (a.attempt_id == id)) [
    | inl same ↦ rw same refl
    | inr other ↦ rw other h
  ]

cancel_last-idle :
    (ended_at : String) (attempts : List WorkerAttempt) (active : Option WorkerAttempt)
    → last attempts ≡ active
    → worker_idle (last (cancel_last ended_at attempts active)) ≡ true
cancel_last-idle ended_at attempts none h = rw h refl
cancel_last-idle ended_at attempts (some a) h = elim (Bool-cases (is_active a.status)) [
  | inr idle ↦ rw (idle, h, idle) refl
  | inl going ↦ rw going (
      rw
        (
          last-changed (canceled_attempt a.attempt_id ended_at)
              (canceled_attempt-refine a.attempt_id ended_at)
              (canceled_attempt-id a.attempt_id ended_at)
              (canceled_attempt-inactive a.attempt_id ended_at) attempts,
          h,
          beq_self a.attempt_id,
        )
        refl)
]

-- The current attempt of a canceled run is not active.
pub cancel_active_attempt-idle :
    (run : RunRecord) (ended_at : String)
    → worker_idle (last (cancel_active_attempt run ended_at)) ≡ true
unfolding cancel_active_attempt
cancel_active_attempt-idle run ended_at =
    cancel_last-idle ended_at run.worker_attempts (last run.worker_attempts) refl

cancel_last-refine :
    (ended_at : String) (run : RunRecord) (active : Option WorkerAttempt)
    → refine_run run ≡ true
    → refine_run (record run { worker_attempts = cancel_last ended_at run.worker_attempts active })
      ≡ true
unfolding refine_run
cancel_last-refine ended_at run none h = h
cancel_last-refine ended_at run (some a) h = elim (Bool-cases (is_active a.status)) [
  | inr idle ↦ rw idle h
  | inl going ↦ rw going (
      changed_attempts-refine (canceled_attempt a.attempt_id ended_at)
        (canceled_attempt-refine a.attempt_id ended_at) (canceled_attempt-id a.attempt_id ended_at)
        (canceled_attempt-inactive a.attempt_id ended_at) run h)
]

-- The schema goes on accepting a run that is canceled.
pub canceled_run-refine :
    (ended_at : String) (run : RunRecord)
    → refine_run run ≡ true
    → refine_run (canceled_run ended_at run) ≡ true
unfolding refine_run canceled_run cancel_active_attempt
canceled_run-refine ended_at run h = cancel_last-refine ended_at run (last run.worker_attempts) h
