-- ===== src/WorkItem/Versions.antt =====
-- Histories of one work item: calls that raise leave it as it was, and each caller names the
-- version that it has read.
use legal_workbench.Prelude.{
  ℕ, ◌≡◌, ◌≢◌, true, false, List, [], ◌∷◌, Result, ok, err, arith, after, Result-cases, inl, inr,
  entity_version_conflict, sym, ◌∙◌,
}
use legal_workbench.WorkItem.Enums.{
  WorkItemStatus, WorkItemAction, pending_review, reopen, status_eq,
}
use legal_workbench.WorkItem.{
  WorkItem, NewWorkItem, ActionRequest, PriorityDecision, create, apply, confirm_priority,
  touch_dependency_change, is_terminal,
}
use legal_workbench.WorkItem.Invariant.{
  IsConsistent, create-IsConsistent, apply-IsConsistent, confirm_priority-IsConsistent,
  touch-IsConsistent,
}
use legal_workbench.WorkItem.Transitions.{Edge, apply-Edge}

-- A call of a method that changes an existing item, with the clock that it reads.
pub data Call : Type 0 where
  act : ActionRequest → ℕ → Call
  confirm : PriorityDecision → ℕ → Call
  touch : ℕ → Call

unfoldable pub perform : WorkItem → Call → Result WorkItem
perform item (act r clock) = apply item r clock
perform item (confirm d clock) = confirm_priority item d clock
perform item (touch expected) = touch_dependency_change item expected

abbrev pub expected_version_of : Call → ℕ
expected_version_of (act r clock) = r.expected_version
expected_version_of (confirm d clock) = d.expected_version
expected_version_of (touch expected) = expected

-- The item after a list of calls.
unfoldable pub run : WorkItem → List Call → WorkItem
run item [] = item
run item (c ∷ cs) = run (after item (perform item c)) cs

perform-IsConsistent :
    (item : WorkItem) (c : Call) {item' : WorkItem}
    → IsConsistent item
    → perform item c ≡ ok item'
    → IsConsistent item'
unfolding perform
perform-IsConsistent item (act r clock) i h = apply-IsConsistent item r clock i h
perform-IsConsistent item (confirm d clock) i h = confirm_priority-IsConsistent item d clock i h
perform-IsConsistent item (touch expected) i h = touch-IsConsistent item expected i h

after-IsConsistent :
    (item : WorkItem) (c : Call) → IsConsistent item → IsConsistent (after item (perform item c))
after-IsConsistent item c i = elim (Result-cases (perform item c)) [
  | inl (item', e) ↦ rw e (perform-IsConsistent item c i e)
  | inr (x, e) ↦ rw e i
]

run-IsConsistent :
    (item : WorkItem) (cs : List Call) → IsConsistent item → IsConsistent (run item cs)
unfolding run
run-IsConsistent item [] i = i
run-IsConsistent item (c ∷ cs) i =
    run-IsConsistent (after item (perform item c)) cs (after-IsConsistent item c i)

-- A created work item is consistent after any calls, whether they are accepted or raise.
pub history-IsConsistent :
    (id : ℕ) (n : NewWorkItem) (cs : List Call) {item : WorkItem}
    → create id n ≡ ok item
    → IsConsistent (run item cs)
history-IsConsistent id n cs h = run-IsConsistent _ cs (create-IsConsistent id n h)

-- A call from another version than the item's raises a version conflict.
conflict :
    (item : WorkItem) (c : Call)
    → item.version ≢ expected_version_of c
    → perform item c ≡ err entity_version_conflict
unfolding perform apply confirm_priority touch_dependency_change
conflict item (act r clock) d = ground arith
conflict item (confirm q clock) d = ground arith
conflict item (touch expected) d = ground arith

-- Of two changes that were both made from one version, an action that is accepted and then any
-- call, the second raises a version conflict: the first is not overwritten.
pub stale_call_refused :
    (item : WorkItem) (r : ActionRequest) (clock : ℕ) (c : Call) {item' : WorkItem}
    → apply item r clock ≡ ok item'
    → expected_version_of c ≡ item.version
    → perform item' c ≡ err entity_version_conflict
stale_call_refused item r clock c h same =
    let bumped = (apply-Edge item r clock h).1 in conflict _ c (λ e. omega arith)

-- Outcomes of a single call.
data Outcome (item : WorkItem) : Call → WorkItem → Type 0 where
  acted :
      {r : ActionRequest} {clock : ℕ} {item' : WorkItem}
      → Edge r.action item.status item'.status
      → Outcome item (act r clock) item'
  kept :
      {c : Call} {item' : WorkItem}
      → item'.status ≡ item.status
      → is_terminal item.status ≡ false
      → Outcome item c item'

perform-Outcome :
    (item : WorkItem) (c : Call) {item' : WorkItem}
    → perform item c ≡ ok item'
    → Outcome item c item'
unfolding perform confirm_priority touch_dependency_change
perform-Outcome item (act r clock) h = acted (apply-Edge item r clock h).0
perform-Outcome item (confirm d clock) h = kept (ground arith) (ground arith)
perform-Outcome item (touch expected) h = kept (ground arith) (ground arith)

abbrev Reopens : Call → Type 0
Reopens (act r clock) = r.action ≡ reopen
Reopens _ = ⊥

Edge-from_terminal :
    {a : WorkItemAction} {s s' : WorkItemStatus} → Edge a s s' → is_terminal s ≡ true → a ≡ reopen
Edge-from_terminal (Edge.cancel_open p) t = absurd (ground arith)
Edge-from_terminal (Edge.edit_owner p) t = absurd (ground arith)
Edge-from_terminal (Edge.edit_deadline p) t = absurd (ground arith)
Edge-from_terminal (Edge.edit_next_action p) t = absurd (ground arith)
Edge-from_terminal _ t = ground arith

-- A done or cancelled item accepts no call but an action that reopens it.
pub terminal_only-Reopens :
    (item : WorkItem) (c : Call) {item' : WorkItem}
    → is_terminal item.status ≡ true
    → perform item c ≡ ok item'
    → Reopens c
terminal_only-Reopens item c t h = only (perform-Outcome item c h)
  where
    only : {c : Call} {item' : WorkItem} → Outcome item c item' → Reopens c
    only (acted edge) = Edge-from_terminal edge t
    only (kept same editable) = absurd (ground arith)

Edge-ne-review :
    {a : WorkItemAction} {s s' : WorkItemStatus}
    → Edge a s s'
    → s ≢ pending_review
    → s' ≢ pending_review
Edge-ne-review (Edge.edit_owner p) n = n
Edge-ne-review (Edge.edit_deadline p) n = n
Edge-ne-review (Edge.edit_next_action p) n = n
Edge-ne-review _ n = λ e. cc

Outcome-ne-review :
    {item : WorkItem} {c : Call} {item' : WorkItem}
    → Outcome item c item'
    → item.status ≢ pending_review
    → item'.status ≢ pending_review
Outcome-ne-review (acted edge) n = Edge-ne-review edge n
Outcome-ne-review (kept same editable) n = λ e. n (sym same ∙ e)

after-ne-review :
    (item : WorkItem) (c : Call)
    → item.status ≢ pending_review
    → (after item (perform item c)).status ≢ pending_review
after-ne-review item c n = elim (Result-cases (perform item c)) [
  | inl (item', e) ↦ rw e (Outcome-ne-review (perform-Outcome item c e) n)
  | inr (x, e) ↦ rw e n
]

run-ne-review :
    (item : WorkItem) (cs : List Call)
    → item.status ≢ pending_review
    → (run item cs).status ≢ pending_review
unfolding run
run-ne-review item [] n = n
run-ne-review item (c ∷ cs) n =
    run-ne-review (after item (perform item c)) cs (after-ne-review item c n)

created-ne-review :
    (id : ℕ) (n : NewWorkItem) {item : WorkItem}
    → create id n ≡ ok item
    → item.status ≢ pending_review
unfolding create
created-ne-review id n h = ground arith

-- No calls take a created work item to the status `pending_review`.
pub never_pending_review :
    (id : ℕ) (n : NewWorkItem) (cs : List Call) {item : WorkItem}
    → create id n ≡ ok item
    → (run item cs).status ≢ pending_review
never_pending_review id n cs h = run-ne-review _ cs (created-ne-review id n h)
