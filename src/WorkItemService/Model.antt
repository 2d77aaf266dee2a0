-- ===== src/WorkItemService/Model.antt =====
-- application/work_item_lifecycle.py: the commands, the results and the tables.
use legal_workbench.Prelude.{
  ℕ, ◌≡◌, Bool, Option, none, some, List, Text, DateTime, nat_eq, text_eq, Codec,
}
use legal_workbench.Prelude.Int.{pos}
use legal_workbench.Prelude.Values.{Value, null, str, int, time, Dict}
use legal_workbench.Audit.{ActorId, AuditEvent, OutboxEvent, IdempotencyRecord}
use legal_workbench.WorkItem.{WorkItem, WorkItemDependency}
use legal_workbench.WorkItem.Enums.{WorkItemStatus, WorkItemAction, DependencyStatus}

pub record WorkItemActionCommand : Type 0 where
  pub work_item_id : ℕ
  pub action : WorkItemAction
  pub expected_version : ℕ
  pub actor_id : ActorId
  pub correlation_id : Text
  pub idempotency_key : Text
  pub reason : Option Text
  pub owner_id : Option Text
  pub deadline : Option DateTime
  pub next_action : Option Text
  pub waiting_party_id : Option Text
  pub blocker_owner_id : Option Text

pub record WorkItemActionResult : Type 0 where
  pub work_item_id : ℕ
  pub status : WorkItemStatus
  pub version : ℕ
  pub idempotent_replay : Bool

pub record ResolveDependencyCommand : Type 0 where
  pub work_item_id : ℕ
  pub dependency_id : ℕ
  pub work_item_version : ℕ
  pub dependency_version : ℕ
  pub actor_id : ActorId
  pub correlation_id : Text
  pub idempotency_key : Text
  pub reason : Option Text

pub record DependencyResolvedResult : Type 0 where
  pub work_item_id : ℕ
  pub dependency_id : ℕ
  pub work_item_version : ℕ
  pub dependency_version : ℕ
  pub status : DependencyStatus
  pub idempotent_replay : Bool

pub record Tables : Type 0 where
  pub work_items : List WorkItem
  pub dependencies : List WorkItemDependency
  pub audit_events : List AuditEvent
  pub outbox_events : List OutboxEvent
  pub idempotency : List IdempotencyRecord

-- The ids of the rows that a handler adds, and the clock.
pub record NewIds : Type 0 where
  pub audit_id : ℕ
  pub event_id : ℕ
  pub record_id : ℕ
  pub clock : ℕ

-- What the standard library does: UUIDs and numbers as texts, `str` of values that are no strings,
-- and the SHA-256 of the JSON of a payload.
pub record Library : Type 0 where
  pub uuid : Codec ℕ
  pub number : Codec ℕ
  pub render : Value → Text
  pub render_int : (n : ℕ) → render (int (pos n)) ≡ number.show n
  pub request_hash : Dict → Text

-- The primary keys.
abbrev pub work_item_key : WorkItem → ℕ
work_item_key w = w.id

abbrev pub dependency_key : WorkItemDependency → ℕ
dependency_key d = d.id

abbrev pub text_or_null : Option Text → Value
text_or_null none = null
text_or_null (some t) = str t

abbrev pub time_or_null : Option DateTime → Value
time_or_null none = null
time_or_null (some d) = time d

-- The assignments of the repository's `save` to a row. The version that is assigned is the one that is
-- stored.
unfoldable pub saved_work_item : WorkItem → WorkItem → WorkItem
saved_work_item row item = record row {
  priority = item.priority;
  status = item.status;
  owner_id = item.owner_id;
  priority_source = item.priority_source;
  priority_reasons = item.priority_reasons;
  override_reason = item.override_reason;
  planned_complete_at = item.planned_complete_at;
  next_action = item.next_action;
  waiting_party_id = item.waiting_party_id;
  waiting_reason = item.waiting_reason;
  waiting_since = item.waiting_since;
  paused_reason = item.paused_reason;
  is_blocked = item.is_blocked;
  blocker_reason = item.blocker_reason;
  blocker_owner_id = item.blocker_owner_id;
  planned_start_at = item.planned_start_at;
  completed_at = item.completed_at;
  cancelled_at = item.cancelled_at;
  cancel_reason = item.cancel_reason;
  priority_confirmed_by = item.priority_confirmed_by;
  priority_confirmed_at = item.priority_confirmed_at;
  version = item.version;
}

unfoldable pub saved_dependency : WorkItemDependency → WorkItemDependency → WorkItemDependency
saved_dependency row d = record row {
  status = d.status;
  satisfied_at = d.satisfied_at;
  satisfied_by = d.satisfied_by;
  waived_by = d.waived_by;
  waived_at = d.waived_at;
  version = d.version;
}
