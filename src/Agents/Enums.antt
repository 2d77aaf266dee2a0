-- ===== src/Agents/Enums.antt =====
-- The enums of domain/enums.py that agent runs use. `==` on an enum compares positions.
use legal_workbench.Prelude.{ℕ, ◌≡◌, ◌↔◌, Bool, true, Eq, ◌==◌, arith}

pub data AgentRunStatus : Type 0 where
  queued preparing running validating completed needs_more_information : AgentRunStatus
  failed timed_out cancelled dead_letter : AgentRunStatus

pub data AgentAttemptStatus : Type 0 where
  running completed failed timed_out cancelled expired : AgentAttemptStatus

pub data AgentRunRole : Type 0 where
  standalone butler_planning specialist butler_synthesis : AgentRunRole

pub data AgentPlanStepStatus : Type 0 where
  pending ready running completed failed skipped needs_information : AgentPlanStepStatus

pub data AgentExecutionPlanStatus : Type 0 where
  queued planning planned running partial completed failed : AgentExecutionPlanStatus
  needs_information cancelled : AgentExecutionPlanStatus

abbrev run_index : AgentRunStatus → ℕ
run_index AgentRunStatus.queued = 0
run_index AgentRunStatus.preparing = 1
run_index AgentRunStatus.running = 2
run_index AgentRunStatus.validating = 3
run_index AgentRunStatus.completed = 4
run_index AgentRunStatus.needs_more_information = 5
run_index AgentRunStatus.failed = 6
run_index AgentRunStatus.timed_out = 7
run_index AgentRunStatus.cancelled = 8
run_index AgentRunStatus.dead_letter = 9

abbrev run_status_beq : AgentRunStatus → AgentRunStatus → Bool
run_status_beq a b = run_index a == run_index b

pub run_status_beq_iff : (a b : AgentRunStatus) → (run_status_beq a b ≡ true) ↔ (a ≡ b)
run_status_beq_iff a b = (λ h. ground arith, λ h. ground arith)

instance abbrev pub run_status_eq : Eq AgentRunStatus
run_status_eq = record { beq = run_status_beq; beq_iff = run_status_beq_iff }

abbrev attempt_index : AgentAttemptStatus → ℕ
attempt_index AgentAttemptStatus.running = 0
attempt_index AgentAttemptStatus.completed = 1
attempt_index AgentAttemptStatus.failed = 2
attempt_index AgentAttemptStatus.timed_out = 3
attempt_index AgentAttemptStatus.cancelled = 4
attempt_index AgentAttemptStatus.expired = 5

abbrev attempt_status_beq : AgentAttemptStatus → AgentAttemptStatus → Bool
attempt_status_beq a b = attempt_index a == attempt_index b

pub attempt_status_beq_iff : (a b : AgentAttemptStatus) → (attempt_status_beq a b ≡ true) ↔ (a ≡ b)
attempt_status_beq_iff a b = (λ h. ground arith, λ h. ground arith)

instance abbrev pub attempt_status_eq : Eq AgentAttemptStatus
attempt_status_eq = record { beq = attempt_status_beq; beq_iff = attempt_status_beq_iff }
