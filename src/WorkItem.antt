-- ===== src/WorkItem.antt =====
-- domain/work_items.py: WorkItem and WorkItemDependency, with their enums of domain/enums.py.
-- A method that mutates `self` returns the new record, and raises before it writes anything.
-- `clock` is what utc_now reads, `id` is what uuid4 returns.
pub mod Enums
pub mod Values
pub mod Invariant
pub mod Transitions
pub mod Versions
mod Examples
use legal_workbench.Prelude.{
  ℕ, ◌+◌, ◌≡◌, refl, Bool, true, false, not, ◌&&◌, ◌||◌, Option, none, some, List, [], ◌∷◌, map,
  Text, strip, strip_or_none, is_falsy, is_blank, is_empty, DateTime, utc_now, now_or,
  require_aware, require_aware?, Result, ok, err, ◌>>=◌, ◌>>◌, raise_if, domain_validation,
  entity_version_conflict, invalid_state_transition, eq, ◌==◌, if◌then◌else◌, contains, keep,
  nat_eq, text_eq, dedup, Error, is_none,
}
use legal_workbench.Prelude.Int.{ℤ, pos, ltb_ℤ}
use legal_workbench.WorkItem.Enums.{
  WorkItemStatus, todo, in_progress, paused, waiting, blocked, pending_review, done, cancelled,
  WorkItemAction, start, pause, wait, block, resume, complete, cancel, reopen, change_owner,
  change_deadline, change_next_action, Priority, PrioritySource, legal_confirmed, DependencyType,
  DependencyStatus, active, satisfied, status_eq, dependency_status_eq, action_eq,
}

pub record WorkItemDependency : Type 0 where
  pub id : ℕ
  pub work_item_id : ℕ
  pub dependency_type : DependencyType
  pub status : DependencyStatus
  pub depends_on_work_item_id : Option ℕ
  pub external_party_id : Option Text
  pub description : Option Text
  pub satisfied_at : Option DateTime
  pub satisfied_by : Option Text
  pub waived_by : Option Text
  pub waived_at : Option DateTime
  pub version : ℕ

pub record WorkItem : Type 0 where
  pub id : ℕ
  pub matter_id : ℕ
  pub title : Text
  pub owner_id : Text
  pub priority : Priority
  pub priority_source : PrioritySource
  pub next_action : Text
  pub status : WorkItemStatus
  pub collaborator_ids : List Text
  pub ai_suggested_priority : Option Priority
  pub priority_reasons : List Text
  pub override_reason : Option Text
  pub estimated_minutes : Option ℤ
  pub waiting_party_id : Option Text
  pub waiting_reason : Option Text
  pub waiting_since : Option DateTime
  pub paused_reason : Option Text
  pub is_blocked : Bool
  pub blocker_reason : Option Text
  pub blocker_owner_id : Option Text
  pub planned_start_at : Option DateTime
  pub planned_complete_at : Option DateTime
  pub completed_at : Option DateTime
  pub cancelled_at : Option DateTime
  pub cancel_reason : Option Text
  pub sequence_order : ℤ
  pub priority_confirmed_by : Option Text
  pub priority_confirmed_at : Option DateTime
  pub version : ℕ

-- The arguments of WorkItem.create.
pub record NewWorkItem : Type 0 where
  pub matter_id : ℕ
  pub title : Text
  pub owner_id : Text
  pub priority : Priority
  pub priority_source : PrioritySource
  pub next_action : Text
  pub priority_reasons : List Text
  pub ai_suggested_priority : Option Priority
  pub estimated_minutes : Option ℤ
  pub planned_complete_at : Option DateTime
  pub sequence_order : ℤ

-- `estimated_minutes is not None and estimated_minutes <= 0`
abbrev pub nonpositive? : Option ℤ → Bool
nonpositive? none = false
nonpositive? (some n) = not (ltb_ℤ (pos 0) n)

unfoldable pub create : ℕ → NewWorkItem → Result WorkItem
create id n = do
  raise_if (is_blank n.title) domain_validation
  raise_if (is_blank n.owner_id) domain_validation
  raise_if (is_blank n.next_action) domain_validation
  raise_if (nonpositive? n.estimated_minutes) domain_validation
  require_aware? n.planned_complete_at
  ok (record {
    id = id;
    matter_id = n.matter_id;
    title = strip n.title;
    owner_id = strip n.owner_id;
    priority = n.priority;
    priority_source = n.priority_source;
    next_action = strip n.next_action;
    status = todo;
    collaborator_ids = [];
    ai_suggested_priority = n.ai_suggested_priority;
    priority_reasons = n.priority_reasons;
    override_reason = none;
    estimated_minutes = n.estimated_minutes;
    waiting_party_id = none;
    waiting_reason = none;
    waiting_since = none;
    paused_reason = none;
    is_blocked = false;
    blocker_reason = none;
    blocker_owner_id = none;
    planned_start_at = none;
    planned_complete_at = n.planned_complete_at;
    completed_at = none;
    cancelled_at = none;
    cancel_reason = none;
    sequence_order = n.sequence_order;
    priority_confirmed_by = none;
    priority_confirmed_at = none;
    version = 1;
  })

-- The arguments of confirm_priority.
pub record PriorityDecision : Type 0 where
  pub actor_id : Text
  pub priority : Priority
  pub planned_complete_at : Option DateTime
  pub reasons : List Text
  pub override_reason : Option Text
  pub expected_version : ℕ

-- `self.status in {DONE, CANCELLED}`
abbrev pub is_terminal : WorkItemStatus → Bool
is_terminal s = contains (done ∷ cancelled ∷ []) s

abbrev pub nonblank : Text → Bool
nonblank t = not (is_blank t)

-- The assignments of confirm_priority.
abbrev pub confirmed : WorkItem → PriorityDecision → ℕ → WorkItem
confirmed item d clock = record item {
  priority = d.priority;
  priority_source = legal_confirmed;
  priority_reasons = dedup [] (map strip (keep nonblank d.reasons));
  override_reason = strip_or_none d.override_reason;
  planned_complete_at = d.planned_complete_at;
  priority_confirmed_by = some d.actor_id;
  priority_confirmed_at = some (utc_now clock);
}

unfoldable pub confirm_priority : WorkItem → PriorityDecision → ℕ → Result WorkItem
confirm_priority item d clock = do
  raise_if (not (eq item.version d.expected_version)) entity_version_conflict
  raise_if (is_terminal item.status) invalid_state_transition
  require_aware? d.planned_complete_at
  ok (confirmed item d clock)

-- The arguments of apply.
pub record ActionRequest : Type 0 where
  pub action : WorkItemAction
  pub actor_id : Text
  pub reason : Option Text
  pub expected_version : ℕ
  pub open_dependencies : List WorkItemDependency
  pub owner_id : Option Text
  pub deadline : Option DateTime
  pub next_action : Option Text
  pub waiting_party_id : Option Text
  pub blocker_owner_id : Option Text

abbrev require_status : WorkItem → List WorkItemStatus → Result (Unit {0})
require_status item allowed = raise_if (not (contains allowed item.status)) invalid_state_transition

abbrev require_editable : WorkItem → Result (Unit {0})
require_editable item = raise_if (is_terminal item.status) invalid_state_transition

unfoldable pub clear_transient_status : WorkItem → WorkItem
clear_transient_status item = record item {
  paused_reason = none;
  waiting_party_id = none;
  waiting_reason = none;
  waiting_since = none;
  is_blocked = false;
  blocker_reason = none;
  blocker_owner_id = none;
}

-- `next((v.external_party_id for v in deps if v.external_party_id), None)`
first_party : List WorkItemDependency → Option Text
first_party [] = none
first_party (d ∷ ds) =
    let rest = first_party ds in if is_falsy d.external_party_id then rest else d.external_party_id

waiting_party : Option Text → List WorkItemDependency → Option Text
unfolding first_party
waiting_party none ds = first_party ds
waiting_party (some t) ds = if is_blank t then first_party ds else some (strip t)

abbrev needs_reason : WorkItemAction → Bool
needs_reason a = contains (pause ∷ wait ∷ block ∷ cancel ∷ reopen ∷ []) a

-- `self.planned_start_at or utc_now()`
abbrev start_time : Option DateTime → ℕ → Option DateTime
start_time none clock = some (utc_now clock)
start_time (some d) clock = some d

-- `deadline is None` raises, and so does a naive deadline.
abbrev require_deadline : Option DateTime → Result (Unit {0})
require_deadline none = err domain_validation
require_deadline (some d) = require_aware d

abbrev text_or : Option Text → Text → Text
text_or none t = t
text_or (some u) t = u

-- The branches on the action, with the normalised reason.
unfoldable pub dispatch :
    WorkItemAction → WorkItem → ActionRequest → Option Text → ℕ → Result WorkItem
unfolding clear_transient_status waiting_party
dispatch start item r reason clock = do
  require_status item (todo ∷ paused ∷ [])
  let cleared = clear_transient_status item
  ok (record cleared {
    status = in_progress;
    planned_start_at = start_time item.planned_start_at clock;
  })
dispatch pause item r reason clock = do
  require_status item (in_progress ∷ [])
  let cleared = clear_transient_status item
  ok (record cleared { status = paused; paused_reason = reason })
dispatch wait item r reason clock = do
  require_status item (todo ∷ in_progress ∷ [])
  raise_if (is_empty r.open_dependencies) invalid_state_transition
  let cleared = clear_transient_status item
  ok (record cleared {
    status = waiting;
    waiting_reason = reason;
    waiting_party_id = waiting_party r.waiting_party_id r.open_dependencies;
    waiting_since = some (utc_now clock);
  })
dispatch block item r reason clock = do
  require_status item (todo ∷ in_progress ∷ paused ∷ waiting ∷ [])
  let owner = strip_or_none r.blocker_owner_id
  raise_if (is_falsy owner) domain_validation
  let cleared = clear_transient_status item
  ok (record cleared {
    status = blocked;
    is_blocked = true;
    blocker_reason = reason;
    blocker_owner_id = owner;
  })
dispatch resume item r reason clock = do
  require_status item (paused ∷ waiting ∷ blocked ∷ [])
  raise_if (eq item.status waiting && not (is_empty r.open_dependencies)) invalid_state_transition
  let cleared = clear_transient_status item
  ok (record cleared { status = in_progress })
dispatch complete item r reason clock = do
  require_status item (in_progress ∷ pending_review ∷ [])
  raise_if (not (is_empty r.open_dependencies)) invalid_state_transition
  let cleared = clear_transient_status item
  ok (record cleared { status = done; completed_at = some (utc_now clock) })
dispatch cancel item r reason clock = do
  raise_if (is_terminal item.status) invalid_state_transition
  let cleared = clear_transient_status item
  ok (record cleared {
    status = cancelled;
    cancel_reason = reason;
    cancelled_at = some (utc_now clock);
  })
dispatch reopen item r reason clock = do
  require_status item (done ∷ cancelled ∷ [])
  let cleared = clear_transient_status item
  ok (record cleared {
    status = todo;
    completed_at = none;
    cancel_reason = none;
    cancelled_at = none;
  })
dispatch change_owner item r reason clock = do
  require_editable item
  let owner = strip_or_none r.owner_id
  raise_if (is_falsy owner) domain_validation
  ok (record item { owner_id = text_or owner [] })
dispatch change_deadline item r reason clock = do
  require_editable item
  require_deadline r.deadline
  ok (record item { planned_complete_at = r.deadline })
dispatch change_next_action item r reason clock = do
  require_editable item
  let action = strip_or_none r.next_action
  raise_if (is_falsy action) domain_validation
  ok (record item { next_action = text_or action [] })

unfoldable pub apply : WorkItem → ActionRequest → ℕ → Result WorkItem
apply item r clock = do
  raise_if (not (eq item.version r.expected_version)) entity_version_conflict
  raise_if (is_blank r.actor_id) domain_validation
  let reason = strip_or_none r.reason
  raise_if (needs_reason r.action && is_falsy reason) domain_validation
  changed ← dispatch r.action item r reason clock
  ok (record changed { version = changed.version + 1 })

unfoldable pub touch_dependency_change : WorkItem → ℕ → Result WorkItem
touch_dependency_change item expected_version = do
  raise_if (not (eq item.version expected_version)) entity_version_conflict
  raise_if (is_terminal item.status) invalid_state_transition
  ok (record item { version = item.version + 1 })

-- The arguments of WorkItemDependency.create.
pub record NewDependency : Type 0 where
  pub work_item_id : ℕ
  pub dependency_type : DependencyType
  pub depends_on_work_item_id : Option ℕ
  pub external_party_id : Option Text
  pub description : Option Text

abbrev points_to : Option ℕ → ℕ → Bool
points_to none n = false
points_to (some m) n = eq m n

unfoldable pub create_dependency : ℕ → NewDependency → Result WorkItemDependency
create_dependency id n = do
  raise_if (points_to n.depends_on_work_item_id n.work_item_id) domain_validation
  raise_if
      (is_none n.depends_on_work_item_id && is_falsy n.external_party_id && is_falsy n.description)
      domain_validation
  ok (record {
    id = id;
    work_item_id = n.work_item_id;
    dependency_type = n.dependency_type;
    status = active;
    depends_on_work_item_id = n.depends_on_work_item_id;
    external_party_id = strip_or_none n.external_party_id;
    description = strip_or_none n.description;
    satisfied_at = none;
    satisfied_by = none;
    waived_by = none;
    waived_at = none;
    version = 1;
  })

-- WorkItemDependency.resolve
unfoldable pub resolve : WorkItemDependency → Text → ℕ → ℕ → Result WorkItemDependency
resolve d actor_id expected_version clock = do
  raise_if (not (eq d.version expected_version)) entity_version_conflict
  raise_if (not (eq d.status active)) invalid_state_transition
  raise_if (is_blank actor_id) domain_validation
  ok (record d {
    status = satisfied;
    satisfied_by = some (strip actor_id);
    satisfied_at = some (utc_now clock);
    version = d.version + 1;
  })
