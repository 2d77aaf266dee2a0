-- ===== src/WorkItem/Enums.antt =====
-- The enums of domain/enums.py that work items use. `==` on an enum compares positions.
use legal_workbench.Prelude.{ℕ, ◌≡◌, ◌↔◌, Bool, true, Eq, ◌==◌, arith}

pub data WorkItemStatus : Type 0 where
  todo in_progress paused waiting blocked pending_review done cancelled : WorkItemStatus

pub data WorkItemAction : Type 0 where
  start pause wait block resume complete cancel reopen : WorkItemAction
  change_owner change_deadline change_next_action : WorkItemAction

pub data Priority : Type 0 where
  urgent high medium low : Priority

pub data PrioritySource : Type 0 where
  system agent_suggested legal_confirmed : PrioritySource

pub data DependencyType : Type 0 where
  finish_to_start start_to_start external_input approval material : DependencyType

pub data DependencyStatus : Type 0 where
  active satisfied waived dependency_cancelled : DependencyStatus

abbrev status_index : WorkItemStatus → ℕ
status_index todo = 0
status_index in_progress = 1
status_index paused = 2
status_index waiting = 3
status_index blocked = 4
status_index pending_review = 5
status_index done = 6
status_index cancelled = 7

abbrev status_beq : WorkItemStatus → WorkItemStatus → Bool
status_beq a b = status_index a == status_index b

pub status_beq_iff : (a b : WorkItemStatus) → (status_beq a b ≡ true) ↔ (a ≡ b)
status_beq_iff a b = (λ h. ground arith, λ h. ground arith)

instance abbrev pub status_eq : Eq WorkItemStatus
status_eq = record { beq = status_beq; beq_iff = status_beq_iff }

abbrev action_index : WorkItemAction → ℕ
action_index start = 0
action_index pause = 1
action_index wait = 2
action_index block = 3
action_index resume = 4
action_index complete = 5
action_index cancel = 6
action_index reopen = 7
action_index change_owner = 8
action_index change_deadline = 9
action_index change_next_action = 10

abbrev action_beq : WorkItemAction → WorkItemAction → Bool
action_beq a b = action_index a == action_index b

pub action_beq_iff : (a b : WorkItemAction) → (action_beq a b ≡ true) ↔ (a ≡ b)
action_beq_iff a b = (λ h. ground arith, λ h. ground arith)

instance abbrev pub action_eq : Eq WorkItemAction
action_eq = record { beq = action_beq; beq_iff = action_beq_iff }

abbrev dependency_index : DependencyStatus → ℕ
dependency_index active = 0
dependency_index satisfied = 1
dependency_index waived = 2
dependency_index dependency_cancelled = 3

abbrev dependency_beq : DependencyStatus → DependencyStatus → Bool
dependency_beq a b = dependency_index a == dependency_index b

pub dependency_beq_iff : (a b : DependencyStatus) → (dependency_beq a b ≡ true) ↔ (a ≡ b)
dependency_beq_iff a b = (λ h. ground arith, λ h. ground arith)

instance abbrev pub dependency_status_eq : Eq DependencyStatus
dependency_status_eq = record { beq = dependency_beq; beq_iff = dependency_beq_iff }
