-- ===== src/WorkItemService/Effects.antt =====
-- What a first execution of a handler writes.
use legal_workbench.Prelude.{
  err, external_error, true, ℕ, ◌+◌, ◌≡◌, refl, sym, ap, ◌∙◌, Option, none, some, List, Text, ok,
  eq, ◌==◌, if◌then◌else◌, nat_eq, text_eq, Result-cases, ok-injective, ok-ne-err, Option-cases,
  inl, inr, arith, Bool-cases, length, find_row, update_row, length-append, find-replaced, find-key,
  subst,
}
use legal_workbench.Audit.{get_record}
use legal_workbench.WorkItem.{
  WorkItem, WorkItemDependency, ActionRequest, apply, dispatch, resolve, touch_dependency_change,
}
use legal_workbench.WorkItem.Invariant.{apply-eq-ok}
use legal_workbench.WorkItem.Enums.{
  WorkItemAction, start, pause, wait, block, resume, complete, cancel, reopen, change_owner,
  change_deadline, change_next_action,
}
use legal_workbench.Prelude.Values.{is_json}
use legal_workbench.WorkItemService.Action.{
  check_audit, act, action_operation, action_request, action_result, execute_action, write_action,
}
use legal_workbench.WorkItemService.Resolution.{
  execute_resolution, resolution_operation, resolution_result, settle, write_resolution,
}
use legal_workbench.WorkItemService.Model.{
  text_or_null, Tables, NewIds, WorkItemActionCommand, WorkItemActionResult,
  ResolveDependencyCommand, DependencyResolvedResult, Library, work_item_key, dependency_key,
  saved_work_item, saved_dependency,
}

module _ (l : Library) (n : NewIds) (t : Tables) where
  -- What a first execution that succeeds has found, checked and written.
  record IsActed (c : WorkItemActionCommand) (t' : Tables) (r : WorkItemActionResult) : Type 0 where
    pub item : WorkItem
    pub changed : WorkItem
    pub stored : find_row work_item_key t.work_items c.work_item_id ≡ some item
    pub applied : apply item (action_request l c item t.dependencies) n.clock ≡ ok changed
    pub checked : check_audit l c changed ≡ ok tt
    pub written : t' ≡ write_action l c n changed t
    pub answer : r ≡ action_result l changed

  act-IsActed :
      (c : WorkItemActionCommand) {t' : Tables} {r : WorkItemActionResult}
      → act l c n t none ≡ ok (t', r)
      → IsActed c t' r
  act-IsActed c {t'} {r} h =
      elim (Option-cases (find_row work_item_key t.work_items c.work_item_id)) [
        | inl e ↦ absurd (ok-ne-err (rw e at h))
        | inr (item, e) ↦
            elim (Result-cases (apply item (action_request l c item t.dependencies) n.clock)) [
              | inr (x, a) ↦ absurd (ok-ne-err (rw (e, a) at h))
              | inl (changed, a) ↦ elim (Result-cases (check_audit l c changed)) [
                | inr (x, k) ↦ absurd (ok-ne-err (rw (e, a, k) at h))
                | inl (u, k) ↦
                    let written = ok-injective (rw (e, a, k) at h) in
                    record {
                      item = item;
                      changed = changed;
                      stored = e;
                      applied = a;
                      checked = k;
                      written = sym (ap (λ p. p.0) written);
                      answer = sym (ap (λ p. p.1) written);
                    }
              ]
            ]
      ]

  pub act-writes :
      (c : WorkItemActionCommand) {t' : Tables} {r : WorkItemActionResult}
      → act l c n t none ≡ ok (t', r)
      → (item : WorkItem) × ((changed : WorkItem) × ((find_row work_item_key t.work_items
                c.work_item_id
              ≡ some item)
            × ((apply item (action_request l c item t.dependencies) n.clock ≡ ok changed)
                × ((t' ≡ write_action l c n changed t) × (r ≡ action_result l changed)))))
  act-writes c h =
      let w = act-IsActed c h in
      (w.item, (w.changed, (w.stored, (w.applied, (w.written, w.answer)))))

text_or_null-is_json : (o : Option Text) → is_json (text_or_null o) ≡ true
unfolding is_json
text_or_null-is_json none = refl
text_or_null-is_json (some t) = refl

-- The audit event of a command with a deadline cannot be stored.
check_audit-eq-ok :
    (l : Library) (c : WorkItemActionCommand) (item : WorkItem) {u : Unit {0}}
    → check_audit l c item ≡ ok u
    → c.deadline ≡ none
unfolding check_audit is_json
check_audit-eq-ok l c item {u} h = elim (Option-cases c.deadline) [
  | inl e ↦ e
  | inr (d, e) ↦
      let refused : err external_error ≡ ok u =
        rw (text_or_null-is_json c.reason, text_or_null-is_json c.owner_id, e) at h in
      absurd (ok-ne-err refused)
]

-- The fields that the repository's `save` does not write are those that no action changes.
abbrev IsSaved : WorkItem → WorkItem → Type 0
IsSaved item changed = (changed.id ≡ item.id) × (saved_work_item item changed ≡ changed)

dispatch-IsSaved :
    (a : WorkItemAction) (item : WorkItem) (r : ActionRequest) (reason : Option Text) (clock : ℕ)
    {changed : WorkItem}
    → dispatch a item r reason clock ≡ ok changed
    → IsSaved item (record changed { version = changed.version + 1 })
unfolding dispatch saved_work_item
dispatch-IsSaved start item r reason clock h = ground arith
dispatch-IsSaved pause item r reason clock h = ground arith
dispatch-IsSaved wait item r reason clock h = ground arith
dispatch-IsSaved block item r reason clock h = ground arith
dispatch-IsSaved resume item r reason clock h = ground arith
dispatch-IsSaved complete item r reason clock h = ground arith
dispatch-IsSaved cancel item r reason clock h = ground arith
dispatch-IsSaved reopen item r reason clock h = ground arith
dispatch-IsSaved change_owner item r reason clock h = ground arith
dispatch-IsSaved change_deadline item r reason clock h = ground arith
dispatch-IsSaved change_next_action item r reason clock h = ground arith

apply-IsSaved :
    (item : WorkItem) (r : ActionRequest) (clock : ℕ) {changed : WorkItem}
    → apply item r clock ≡ ok changed
    → IsSaved item changed
apply-IsSaved item r clock h =
    let (before, moved, bumped, _, _, _) = apply-eq-ok item r clock h in
    subst (IsSaved item) (sym bumped) (dispatch-IsSaved r.action item r _ clock moved)

saved_work_item-id : (row item : WorkItem) → (saved_work_item row item).id ≡ row.id
unfolding saved_work_item
saved_work_item-id row item = refl

saved_dependency-id : (row d : WorkItemDependency) → (saved_dependency row d).id ≡ row.id
unfolding saved_dependency
saved_dependency-id row d = refl

-- The work items after saving a changed one, whose row is the one that was read.
pub find-saved :
    (rows : List WorkItem) (i j : ℕ) {item changed : WorkItem}
    → find_row work_item_key rows i ≡ some item
    → IsSaved item changed
    → find_row work_item_key
        (update_row work_item_key changed.id (λ row. saved_work_item row changed) rows)
        j
      ≡ (if i == j then some changed else find_row work_item_key rows j)
find-saved rows i j {item} {changed} e (same, saved) =
    let replaced =
      find-replaced work_item_key i j (λ row. saved_work_item row changed)
        (λ row. saved_work_item-id row changed) rows e in
    subst
      (λ k.
        find_row work_item_key
          (update_row work_item_key k (λ row. saved_work_item row changed) rows) j
        ≡ (if i == j then some changed else find_row work_item_key rows j))
      (sym (same ∙ find-key work_item_key rows i e))
      (replaced ∙ ap (λ w. if i == j then some w else find_row work_item_key rows j) saved)

-- What holds of the tables after a first execution of an action.
module _ (l : Library) (c : WorkItemActionCommand) (n : NewIds) (t : Tables) where
  pub execute_action-first :
      get_record t.idempotency (action_operation l) c.idempotency_key ≡ none
      → execute_action l c n t ≡ act l c n t none
  unfolding execute_action
  execute_action-first h = rw h refl

  -- The first execution of an action on a work item, if it succeeds, is that of a command without a
  -- deadline and has applied the action to the stored item; it answers with the changed item, which is
  -- then the one that is stored, leaves every other work item and every dependency as it was, and adds
  -- one audit event, one outbox event and one idempotency record. So a first execution of a command with
  -- a deadline never succeeds.
  pub first_action_effects :
      (j : ℕ) {t' : Tables} {r : WorkItemActionResult}
      → get_record t.idempotency (action_operation l) c.idempotency_key ≡ none
      → execute_action l c n t ≡ ok (t', r)
      → (item : WorkItem) × ((changed : WorkItem) × ((c.deadline ≡ none)
            × ((find_row work_item_key t.work_items c.work_item_id ≡ some item)
                × ((apply item (action_request l c item t.dependencies) n.clock ≡ ok changed)
                    × ((r ≡ action_result l changed)
                        × ((find_row work_item_key t'.work_items j ≡ (
                              if c.work_item_id == j
                              then some changed
                              else find_row work_item_key t.work_items j))
                            × ((t'.dependencies ≡ t.dependencies)
                                × ((length t'.audit_events ≡ length t.audit_events + 1)
                                    × ((length t'.outbox_events ≡ length t.outbox_events + 1)
                                        × (length t'.idempotency
                                            ≡ length t.idempotency + 1))))))))))
  unfolding write_action
  first_action_effects j {t'} {r} h e =
      let w = act-IsActed l n t c (sym (execute_action-first h) ∙ e) in
      let saved =
        apply-IsSaved w.item (action_request l c w.item t.dependencies) n.clock w.applied in
      (
        w.item,
        (
          w.changed,
          (
            check_audit-eq-ok l c w.changed w.checked,
            (
              w.stored,
              (
                w.applied,
                (
                  w.answer,
                  (
                    rw w.written (find-saved t.work_items c.work_item_id j w.stored saved),
                    (
                      rw w.written refl,
                      (
                        rw w.written (length-append t.audit_events _),
                        (
                          rw w.written (length-append t.outbox_events _),
                          rw w.written (length-append t.idempotency _),
                        ),
                      ),
                    ),
                  ),
                ),
              ),
            ),
          ),
        ),
      )

module _ (l : Library) where
  pub execute_resolution-first :
      (c : ResolveDependencyCommand) (n : NewIds) (t : Tables)
      → get_record t.idempotency (resolution_operation l) c.idempotency_key ≡ none
      → execute_resolution l c n t ≡ settle l c n t none
  unfolding execute_resolution
  execute_resolution-first c n t h = rw h refl

  pub settle-writes :
      (n : NewIds) (t : Tables) (c : ResolveDependencyCommand) {t' : Tables}
      {r : DependencyResolvedResult}
      → settle l c n t none ≡ ok (t', r)
      → (item : WorkItem) × ((d : WorkItemDependency) × ((t' ≡ write_resolution l c n item d t)
            × (r ≡ resolution_result l item d)))
  settle-writes n t c {t'} {r} h =
      elim (Option-cases (find_row work_item_key t.work_items c.work_item_id)) [
        | inl e ↦ absurd (ok-ne-err (rw e at h))
        | inr (item, e) ↦
            elim (Option-cases (find_row dependency_key t.dependencies c.dependency_id)) [
              | inl e' ↦ absurd (ok-ne-err (rw (e, e') at h))
              | inr (d, e') ↦ elim (Bool-cases (eq d.work_item_id item.id)) [
                | inr q ↦ absurd (ok-ne-err (rw (e, e', q) at h))
                | inl q ↦
                    elim (Result-cases (resolve d c.actor_id.value c.dependency_version n.clock)) [
                      | inr (x, a) ↦ absurd (ok-ne-err (rw (e, e', q, a) at h))
                      | inl (d', a) ↦
                          elim (Result-cases (touch_dependency_change item c.work_item_version)) [
                            | inr (x, b) ↦ absurd (ok-ne-err (rw (e, e', q, a, b) at h))
                            | inl (item', b) ↦
                                let written = ok-injective (rw (e, e', q, a, b) at h) in
                                (
                                  item',
                                  (d', (sym (ap (λ p. p.0) written), sym (ap (λ p. p.1) written))),
                                )
                          ]
                    ]
              ]
            ]
      ]
