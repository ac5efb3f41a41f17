-- ===== src/Protocol/Phase.antt =====
-- The phases of a Run and the states of a worker attempt (packages/protocol/src/schema/run-state.ts).
use ai_smart_flow.Shared.{ℕ, ◌≡◌, ◌↔◌, Bool, true, false, Eq, ◌==◌, nat_eq, arith}

pub data RunPhase : Type 0 where
  preparing running fixing review_pending reviewing ready_to_publish publishing paused canceling
        completed canceled failed :
      RunPhase

pub data WorkerStatus : Type 0 where
  preparing running completed blocked failed timed_out canceled : WorkerStatus

abbrev pub phase_rank : RunPhase → ℕ
phase_rank RunPhase.preparing = 0
phase_rank RunPhase.running = 1
phase_rank RunPhase.fixing = 2
phase_rank RunPhase.review_pending = 3
phase_rank RunPhase.reviewing = 4
phase_rank RunPhase.ready_to_publish = 5
phase_rank RunPhase.publishing = 6
phase_rank RunPhase.paused = 7
phase_rank RunPhase.canceling = 8
phase_rank RunPhase.completed = 9
phase_rank RunPhase.canceled = 10
phase_rank RunPhase.failed = 11

pub phase_beq_iff : (a b : RunPhase) → ((phase_rank a == phase_rank b) ≡ true) ↔ (a ≡ b)
phase_beq_iff a b = ground arith

instance abbrev pub phase_eq : Eq RunPhase
phase_eq = record { beq = λ a b. phase_rank a == phase_rank b; beq_iff = phase_beq_iff }

-- `new Set(["COMPLETED", "CANCELED", "FAILED"]).has(phase)`
abbrev pub is_terminal : RunPhase → Bool
is_terminal RunPhase.completed = true
is_terminal RunPhase.canceled = true
is_terminal RunPhase.failed = true
is_terminal _ = false

-- `status === "PREPARING" || status === "RUNNING"`
abbrev pub is_active : WorkerStatus → Bool
is_active WorkerStatus.preparing = true
is_active WorkerStatus.running = true
is_active _ = false

abbrev pub is_running : WorkerStatus → Bool
is_running WorkerStatus.running = true
is_running _ = false

abbrev pub is_completed : WorkerStatus → Bool
is_completed WorkerStatus.completed = true
is_completed _ = false
