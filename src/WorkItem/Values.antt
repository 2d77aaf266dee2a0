-- ===== src/WorkItem/Values.antt =====
-- The values of the enums that work items store, and reading them back.
use legal_workbench.Prelude.{
  ◌≡◌, refl, Text, text, Result, ok, err, value_error, List, [], ◌∷◌, eq, text_eq, if◌then◌else◌,
}
use legal_workbench.WorkItem.Enums.{
  WorkItemStatus, WorkItemAction, DependencyStatus, DependencyType,
}

-- `status.value`
abbrev pub status_value : WorkItemStatus → Text
status_value WorkItemStatus.todo = text "todo"
status_value WorkItemStatus.in_progress = text "in_progress"
status_value WorkItemStatus.paused = text "paused"
status_value WorkItemStatus.waiting = text "waiting"
status_value WorkItemStatus.blocked = text "blocked"
status_value WorkItemStatus.pending_review = text "pending_review"
status_value WorkItemStatus.done = text "done"
status_value WorkItemStatus.cancelled = text "cancelled"

-- `action.value`
abbrev pub action_value : WorkItemAction → Text
action_value WorkItemAction.start = text "start"
action_value WorkItemAction.pause = text "pause"
action_value WorkItemAction.wait = text "wait"
action_value WorkItemAction.block = text "block"
action_value WorkItemAction.resume = text "resume"
action_value WorkItemAction.complete = text "complete"
action_value WorkItemAction.cancel = text "cancel"
action_value WorkItemAction.reopen = text "reopen"
action_value WorkItemAction.change_owner = text "change_owner"
action_value WorkItemAction.change_deadline = text "change_deadline"
action_value WorkItemAction.change_next_action = text "change_next_action"

-- `dependency.status.value`
abbrev pub dependency_value : DependencyStatus → Text
dependency_value DependencyStatus.active = text "active"
dependency_value DependencyStatus.satisfied = text "satisfied"
dependency_value DependencyStatus.waived = text "waived"
dependency_value DependencyStatus.dependency_cancelled = text "cancelled"

-- The first of the members whose value is a text: `Enum(value)`.
abbrev pub member {ℓ} : {A : Type ℓ} → (A → Text) → List A → Text → Result A
member value [] t = err value_error
member value (a ∷ members) t =
    let rest = member value members t in if eq (value a) t then ok a else rest

-- `WorkItemStatus(value)`
unfoldable pub parse_status : Text → Result WorkItemStatus
parse_status = member status_value (
    WorkItemStatus.todo ∷ WorkItemStatus.in_progress ∷ WorkItemStatus.paused
    ∷ WorkItemStatus.waiting ∷ WorkItemStatus.blocked ∷ WorkItemStatus.pending_review
    ∷ WorkItemStatus.done ∷ WorkItemStatus.cancelled ∷ [])

-- `DependencyStatus(value)`
unfoldable pub parse_dependency_status : Text → Result DependencyStatus
parse_dependency_status = member dependency_value (
    DependencyStatus.active ∷ DependencyStatus.satisfied ∷ DependencyStatus.waived
    ∷ DependencyStatus.dependency_cancelled ∷ [])

pub parse_status-value : (s : WorkItemStatus) → parse_status (status_value s) ≡ ok s
unfolding parse_status
parse_status-value WorkItemStatus.todo = refl
parse_status-value _ = refl

pub parse_dependency_status-value :
    (s : DependencyStatus) → parse_dependency_status (dependency_value s) ≡ ok s
unfolding parse_dependency_status
parse_dependency_status-value DependencyStatus.active = refl
parse_dependency_status-value _ = refl

-- `dependency_type.value`
abbrev pub type_value : DependencyType → Text
type_value DependencyType.finish_to_start = text "finish_to_start"
type_value DependencyType.start_to_start = text "start_to_start"
type_value DependencyType.external_input = text "external_input"
type_value DependencyType.approval = text "approval"
type_value DependencyType.material = text "material"
