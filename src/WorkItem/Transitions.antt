-- ===== src/WorkItem/Transitions.antt =====
-- The status diagram of work items, and when `apply` accepts an action.
use legal_workbench.Prelude.{
  ℕ, ◌+◌, ◌≡◌, refl, true, false, not, ◌&&◌, Option, some, Text, is_falsy, is_blank, is_empty,
  DateTime, ok, eq, strip_or_none, arith, ◌↔◌, succeeds, Option-cases, inl, inr, ok_of_succeeds,
  subst,
}
use legal_workbench.WorkItem.Enums.{
  WorkItemStatus, todo, in_progress, paused, waiting, blocked, pending_review, done, cancelled,
  WorkItemAction, start, pause, wait, block, resume, complete, cancel, reopen, change_owner,
  change_deadline, change_next_action, status_eq,
}
use legal_workbench.WorkItem.{WorkItem, ActionRequest, apply, dispatch, needs_reason, is_terminal}
use legal_workbench.WorkItem.Invariant.{apply-eq-ok}

-- The edges of the diagram.
pub data Edge : WorkItemAction → WorkItemStatus → WorkItemStatus → Type 0 where
  start_todo : Edge start todo in_progress
  start_paused : Edge start paused in_progress
  pause_work : Edge pause in_progress paused
  wait_todo : Edge wait todo waiting
  wait_work : Edge wait in_progress waiting
  block_todo : Edge block todo blocked
  block_work : Edge block in_progress blocked
  block_paused : Edge block paused blocked
  block_waiting : Edge block waiting blocked
  resume_paused : Edge resume paused in_progress
  resume_waiting : Edge resume waiting in_progress
  resume_blocked : Edge resume blocked in_progress
  complete_work : Edge complete in_progress done
  complete_review : Edge complete pending_review done
  cancel_open : {s : WorkItemStatus} → is_terminal s ≡ false → Edge cancel s cancelled
  reopen_done : Edge reopen done todo
  reopen_cancelled : Edge reopen cancelled todo
  edit_owner : {s : WorkItemStatus} → is_terminal s ≡ false → Edge change_owner s s
  edit_deadline : {s : WorkItemStatus} → is_terminal s ≡ false → Edge change_deadline s s
  edit_next_action : {s : WorkItemStatus} → is_terminal s ≡ false → Edge change_next_action s s

ruleset edges = (
  start_todo, start_paused, pause_work, wait_todo, wait_work, block_todo, block_work, block_paused,
  block_waiting, resume_paused, resume_waiting, resume_blocked, complete_work, complete_review,
  cancel_open, reopen_done, reopen_cancelled, edit_owner, edit_deadline, edit_next_action,
)

dispatch-Edge :
    (a : WorkItemAction) (item : WorkItem) (r : ActionRequest) (reason : Option Text) (clock : ℕ)
    {changed : WorkItem}
    → dispatch a item r reason clock ≡ ok changed
    → Edge a item.status changed.status
unfolding dispatch
dispatch-Edge start item r reason clock h = grind (arith, edges)
dispatch-Edge _ item r reason clock h = grind (arith, edges)

dispatch-version :
    (a : WorkItemAction) (item : WorkItem) (r : ActionRequest) (reason : Option Text) (clock : ℕ)
    {changed : WorkItem}
    → dispatch a item r reason clock ≡ ok changed
    → changed.version ≡ item.version
unfolding dispatch
dispatch-version start item r reason clock h = ground arith
dispatch-version _ item r reason clock h = ground arith

-- What an action asks of its arguments and of the open dependencies, besides an edge.
abbrev pub Asks : WorkItemAction → WorkItem → ActionRequest → Type 0
Asks wait item r = is_empty r.open_dependencies ≡ false
Asks block item r = is_falsy (strip_or_none r.blocker_owner_id) ≡ false
Asks resume item r = (eq item.status waiting && not (is_empty r.open_dependencies)) ≡ false
Asks complete item r = is_empty r.open_dependencies ≡ true
Asks change_owner item r = is_falsy (strip_or_none r.owner_id) ≡ false
Asks change_deadline item r = (d : DateTime) × (r.deadline ≡ some d) × (d.aware ≡ true)
Asks change_next_action item r = is_falsy (strip_or_none r.next_action) ≡ false
Asks _ item r = Unit

dispatch-Asks :
    (a : WorkItemAction) (item : WorkItem) (r : ActionRequest) (reason : Option Text) (clock : ℕ)
    {changed : WorkItem}
    → dispatch a item r reason clock ≡ ok changed
    → Asks a item r
unfolding dispatch
dispatch-Asks start item r reason clock h = tt
dispatch-Asks change_deadline item r reason clock h = elim (Option-cases r.deadline) [
  | inl e ↦ absurd (ground arith)
  | inr (d, e) ↦ (d, e, ground arith)
]
dispatch-Asks _ item r reason clock h = ground arith

dispatch_accepts :
    (a : WorkItemAction) (item : WorkItem) (r : ActionRequest) (reason : Option Text) (clock : ℕ)
    {s s' : WorkItemStatus}
    → item.status ≡ s
    → Edge a s s'
    → Asks a item r
    → succeeds (dispatch a item r reason clock) ≡ true
unfolding dispatch
dispatch_accepts a item r reason clock e start_todo q = ground arith
dispatch_accepts a item r reason clock e (cancel_open p) q = ground arith
dispatch_accepts a item r reason clock e (edit_owner p) q = ground arith
dispatch_accepts a item r reason clock e (edit_deadline p) (d, e', w) = ground arith
dispatch_accepts a item r reason clock e (edit_next_action p) q = ground arith
dispatch_accepts a item r reason clock e _ q = ground arith

-- An independent account of when an action is accepted.
pub record IsAccepted (item : WorkItem) (r : ActionRequest) : Type 0 where
  pub current : item.version ≡ r.expected_version
  pub acting : is_blank r.actor_id ≡ false
  pub reasoned : (needs_reason r.action && is_falsy (strip_or_none r.reason)) ≡ false
  pub target : WorkItemStatus
  pub edge : Edge r.action item.status target
  pub asks : Asks r.action item r

apply_accepts :
    (item : WorkItem) (r : ActionRequest) (clock : ℕ)
    → IsAccepted item r
    → succeeds (dispatch r.action item r (strip_or_none r.reason) clock) ≡ true
    → succeeds (apply item r clock) ≡ true
unfolding apply
apply_accepts item r clock q h = ground (arith, q.current, q.acting, q.reasoned)

-- `apply` returns exactly when the version is current, an actor is named, a reason is given where
-- the action needs one, the diagram has an edge for the action, and what the action asks holds.
pub apply-succeeds_iff :
    (item : WorkItem) (r : ActionRequest) (clock : ℕ)
    → (succeeds (apply item r clock) ≡ true) ↔ IsAccepted item r
apply-succeeds_iff item r clock = (sound, complete')
  where
    sound : succeeds (apply item r clock) ≡ true → IsAccepted item r
    sound h =
        let (item', e) = ok_of_succeeds (apply item r clock) h in
        let (changed, moved, _, same, acting, reasoned) = apply-eq-ok item r clock e in
        record {
          current = same;
          acting = acting;
          reasoned = reasoned;
          target = changed.status;
          edge = dispatch-Edge r.action item r _ clock moved;
          asks = dispatch-Asks r.action item r _ clock moved;
        }

    complete' : IsAccepted item r → succeeds (apply item r clock) ≡ true
    complete' q =
        apply_accepts item r clock q
          (dispatch_accepts r.action item r (strip_or_none r.reason) clock refl q.edge q.asks)

-- An accepted action follows an edge of the diagram, and counts the version up by one.
pub apply-Edge :
    (item : WorkItem) (r : ActionRequest) (clock : ℕ) {item' : WorkItem}
    → apply item r clock ≡ ok item'
    → Edge r.action item.status item'.status × (item'.version ≡ item.version + 1)
apply-Edge item r clock h =
    let (changed, moved, bumped, _, _, _) = apply-eq-ok item r clock h in
    let edge = dispatch-Edge r.action item r _ clock moved in
    let kept = dispatch-version r.action item r _ clock moved in
    (subst (Edge r.action item.status) (cc) edge, ground arith)
