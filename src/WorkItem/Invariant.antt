-- ===== src/WorkItem/Invariant.antt =====
-- What holds of a work item between two calls of its methods.
use legal_workbench.Prelude.{
  ℕ, ◌+◌, ◌≡◌, Bool, true, false, not, sym, subst, ◌&&◌, ◌||◌, Option, none, some, Text, is_falsy,
  is_blank, is_empty, DateTime, ok, eq, strip_or_none, arith, Result-cases, is_none, inl, inr,
}
use legal_workbench.WorkItem.Enums.{
  paused, waiting, blocked, done, cancelled, WorkItemAction, start, status_eq,
}
use legal_workbench.WorkItem.{
  WorkItem, NewWorkItem, ActionRequest, PriorityDecision, create, apply, dispatch, confirm_priority,
  needs_reason, touch_dependency_change, confirmed,
}

abbrev pub is_aware? : Option DateTime → Bool
is_aware? none = true
is_aware? (some d) = d.aware

pub record IsConsistent (item : WorkItem) : Type 0 where
  pub titled : is_empty item.title ≡ false
  pub owned : is_empty item.owner_id ≡ false
  pub actionable : is_empty item.next_action ≡ false
  pub planned_aware : is_aware? item.planned_complete_at ≡ true
  pub paused_with_reason : is_falsy item.paused_reason ≡ not (eq item.status paused)
  pub waiting_with_reason : is_falsy item.waiting_reason ≡ not (eq item.status waiting)
  pub waiting_dated : is_none item.waiting_since ≡ not (eq item.status waiting)
  pub waits_for : (eq item.status waiting || is_none item.waiting_party_id) ≡ true
  pub flagged : item.is_blocked ≡ eq item.status blocked
  pub blocked_with_reason : is_falsy item.blocker_reason ≡ not (eq item.status blocked)
  pub blocked_by : is_falsy item.blocker_owner_id ≡ not (eq item.status blocked)
  pub completed_dated : is_none item.completed_at ≡ not (eq item.status done)
  pub cancelled_dated : is_none item.cancelled_at ≡ not (eq item.status cancelled)
  pub cancelled_with_reason : is_falsy item.cancel_reason ≡ not (eq item.status cancelled)

-- A work item that `create` returns is consistent.
pub create-IsConsistent :
    (id : ℕ) (n : NewWorkItem) {item : WorkItem} → create id n ≡ ok item → IsConsistent item
unfolding create
create-IsConsistent id n h = ground arith

dispatch-IsConsistent :
    (a : WorkItemAction) (item : WorkItem) (r : ActionRequest) (reason : Option Text) (clock : ℕ)
    {changed : WorkItem}
    → IsConsistent item
    → (needs_reason a && is_falsy reason) ≡ false
    → dispatch a item r reason clock ≡ ok changed
    → IsConsistent changed
unfolding dispatch
dispatch-IsConsistent start item r reason clock c g h = ground arith
dispatch-IsConsistent _ item r reason clock c g h = ground arith

-- What `apply` has done where it returns.
pub apply-eq-ok :
    (item : WorkItem) (r : ActionRequest) (clock : ℕ) {item' : WorkItem}
    → apply item r clock ≡ ok item'
    → (changed : WorkItem) × (dispatch r.action item r (strip_or_none r.reason) clock ≡ ok changed)
      × (item' ≡ record changed { version = changed.version + 1 })
      × (item.version ≡ r.expected_version)
      × (is_blank r.actor_id ≡ false)
      × ((needs_reason r.action && is_falsy (strip_or_none r.reason)) ≡ false)
unfolding apply
apply-eq-ok item r clock h =
    elim (Result-cases (dispatch r.action item r (strip_or_none r.reason) clock)) [
      | inl (changed, e) ↦ (changed, e, ground arith, ground arith, ground arith, ground arith)
      | inr (x, e) ↦ absurd (ground arith)
    ]

bump-IsConsistent :
    {item item' : WorkItem}
    → IsConsistent item
    → item' ≡ record item { version = item.version + 1 }
    → IsConsistent item'
bump-IsConsistent c e = ground arith

-- Every action that `apply` accepts keeps the item consistent: the notes on a pause, a wait or a
-- blocker stand exactly while the item is in that status, and so do the two end dates.
pub apply-IsConsistent :
    (item : WorkItem) (r : ActionRequest) (clock : ℕ) {item' : WorkItem}
    → IsConsistent item
    → apply item r clock ≡ ok item'
    → IsConsistent item'
apply-IsConsistent item r clock c h =
    let (changed, moved, bumped, _, _, reasoned) = apply-eq-ok item r clock h in
    bump-IsConsistent (dispatch-IsConsistent r.action item r _ clock c reasoned moved) bumped

confirm_priority-eq-ok :
    (item : WorkItem) (d : PriorityDecision) (clock : ℕ) {item' : WorkItem}
    → confirm_priority item d clock ≡ ok item'
    → (is_aware? d.planned_complete_at ≡ true) × (item' ≡ confirmed item d clock)
unfolding confirm_priority
confirm_priority-eq-ok item d clock h = ground arith

confirmed-IsConsistent :
    (item : WorkItem) (d : PriorityDecision) (clock : ℕ)
    → IsConsistent item
    → is_aware? d.planned_complete_at ≡ true
    → IsConsistent (confirmed item d clock)
confirmed-IsConsistent item d clock c planned = record {
  titled = c.titled;
  owned = c.owned;
  actionable = c.actionable;
  planned_aware = planned;
  paused_with_reason = c.paused_with_reason;
  waiting_with_reason = c.waiting_with_reason;
  waiting_dated = c.waiting_dated;
  waits_for = c.waits_for;
  flagged = c.flagged;
  blocked_with_reason = c.blocked_with_reason;
  blocked_by = c.blocked_by;
  completed_dated = c.completed_dated;
  cancelled_dated = c.cancelled_dated;
  cancelled_with_reason = c.cancelled_with_reason;
}

pub confirm_priority-IsConsistent :
    (item : WorkItem) (d : PriorityDecision) (clock : ℕ) {item' : WorkItem}
    → IsConsistent item
    → confirm_priority item d clock ≡ ok item'
    → IsConsistent item'
confirm_priority-IsConsistent item d clock c h =
    let (planned, e) = confirm_priority-eq-ok item d clock h in
    subst IsConsistent (sym e) (confirmed-IsConsistent item d clock c planned)

pub touch-IsConsistent :
    (item : WorkItem) (expected : ℕ) {item' : WorkItem}
    → IsConsistent item
    → touch_dependency_change item expected ≡ ok item'
    → IsConsistent item'
unfolding touch_dependency_change
touch-IsConsistent item expected c h = ground arith
