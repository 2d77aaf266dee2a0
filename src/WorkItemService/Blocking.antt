-- ===== src/WorkItemService/Blocking.antt =====
-- A dependency that CreateDependencyHandler adds holds its work item back.
use legal_workbench.Prelude.{
  ℕ, ◌≡◌, refl, sym, ap, ◌∙◌, subst, Bool, true, false, not, Option, none, List, [], ◌∷◌, ◌++◌,
  Text, ok, succeeds, eq_self, nat_eq, is_empty, any, keep, arith, find_row, find-key, Bool-cases,
  Option-cases, Result-cases, inl, inr, ok-injective, ok-ne-err,
}
use legal_workbench.Audit.{get_record}
use legal_workbench.WorkItem.{
  WorkItem, WorkItemDependency, NewDependency, ActionRequest, apply, dispatch, create_dependency,
  touch_dependency_change,
}
use legal_workbench.WorkItem.Enums.{complete, dependency_status_eq, WorkItemAction}
use legal_workbench.WorkItem.Invariant.{apply-eq-ok}
use legal_workbench.WorkItemService.Model.{
  Tables, NewIds, Library, WorkItemActionCommand, work_item_key,
}
use legal_workbench.WorkItemService.Action.{
  execute_action, action_operation, action_request, is_open_of,
}
use legal_workbench.WorkItemService.Creation.{
  CreateDependencyCommand, DependencyCreatedResult, execute_creation, creation_operation,
  write_creation, lacks_predecessor, new_dependency,
}
use legal_workbench.WorkItemService.Effects.{act-writes, execute_action-first}

is_empty-keep :
    (test : WorkItemDependency → Bool) (ds : List WorkItemDependency)
    → is_empty (keep test ds) ≡ not (any test ds)
is_empty-keep test [] = refl
is_empty-keep test (d ∷ ds) = ground (arith, is_empty-keep test ds)

empty-ne-any :
    (test : WorkItemDependency → Bool) (ds : List WorkItemDependency)
    → is_empty (keep test ds) ≡ true
    → any test ds ≡ true
    → ⊥
empty-ne-any test ds e h = let apart = is_empty-keep test ds in ground arith

any-snoc :
    (test : WorkItemDependency → Bool) (ds : List WorkItemDependency) (d : WorkItemDependency)
    → test d ≡ true
    → any test (ds ++ d ∷ []) ≡ true
any-snoc test [] d h = ground arith
any-snoc test (e ∷ ds) d h = ground (arith, any-snoc test ds d h)

dispatch-complete :
    (a : WorkItemAction) (item : WorkItem) (r : ActionRequest) (reason : Option Text) (clock : ℕ)
    {changed : WorkItem}
    → a ≡ complete
    → dispatch a item r reason clock ≡ ok changed
    → is_empty r.open_dependencies ≡ true
unfolding dispatch
dispatch-complete a item r reason clock e h = let moved = rw e at h in ground arith

apply-complete :
    (item : WorkItem) (r : ActionRequest) (clock : ℕ) {changed : WorkItem}
    → r.action ≡ complete
    → apply item r clock ≡ ok changed
    → is_empty r.open_dependencies ≡ true
apply-complete item r clock e h =
    let (before, moved, _, _, _, _) = apply-eq-ok item r clock h in
    dispatch-complete r.action item r _ clock e moved

module _ (l : Library) where
  open_blocks :
      (d : WorkItemActionCommand) (m : NewIds) (t : Tables)
      → get_record t.idempotency (action_operation l) d.idempotency_key ≡ none
      → d.action ≡ complete
      → any (is_open_of l d.work_item_id) t.dependencies ≡ true
      → succeeds (execute_action l d m t) ≡ false
  open_blocks d m t new e opened = elim (Result-cases (execute_action l d m t)) [
    | inr (x, h) ↦ rw h refl
    | inl ((t', r), h) ↦
        let (item, (changed, (f, (applied, _)))) =
          act-writes l m t d (sym (execute_action-first l d m t new) ∙ h) in
        let empty =
          apply-complete item (action_request l d item t.dependencies) m.clock e applied in
        let same = find-key work_item_key t.work_items d.work_item_id f in
        let opened_item =
          subst (λ i. any (is_open_of l i) t.dependencies ≡ true) (sym same) opened in
        absurd (empty-ne-any (is_open_of l item.id) t.dependencies empty opened_item)
  ]

  create_dependency-IsOpen :
      (id : ℕ) (n : NewDependency) {d : WorkItemDependency}
      → create_dependency id n ≡ ok d
      → is_open_of l n.work_item_id d ≡ true
  unfolding create_dependency
  create_dependency-IsOpen id n h = ground (arith, eq_self n.work_item_id)

  creation-eq-ok :
      (c : CreateDependencyCommand) (id : ℕ) (n : NewIds) (t : Tables) {t' : Tables}
      {r : DependencyCreatedResult}
      → get_record t.idempotency (creation_operation l) c.idempotency_key ≡ none
      → execute_creation l c id n t ≡ ok (t', r)
      → (item : WorkItem) × ((d : WorkItemDependency) × ((t' ≡ write_creation l c n item d t)
            × (is_open_of l c.work_item_id d ≡ true)))
  unfolding execute_creation
  creation-eq-ok c id n t {t'} {r} new h =
      elim (Option-cases (find_row work_item_key t.work_items c.work_item_id)) [
        | inl e ↦ absurd (ok-ne-err (rw (new, e) at h))
        | inr (item, e) ↦
            elim (Bool-cases (lacks_predecessor c.depends_on_work_item_id t.work_items)) [
              | inl p ↦ absurd (ok-ne-err (rw (new, e, p) at h))
              | inr p ↦ elim (Result-cases (create_dependency id (new_dependency c))) [
                | inr (x, f) ↦ absurd (ok-ne-err (rw (new, e, p, f) at h))
                | inl (d, f) ↦
                    elim (Result-cases (touch_dependency_change item c.work_item_version)) [
                      | inr (x, g) ↦ absurd (ok-ne-err (rw (new, e, p, f, g) at h))
                      | inl (touched, g) ↦
                          let written = ok-injective (rw (new, e, p, f, g) at h) in
                          (
                            touched,
                            (
                              d,
                              (
                                sym (ap (λ q. q.0) written),
                                create_dependency-IsOpen id (new_dependency c) f,
                              ),
                            ),
                          )
                    ]
              ]
            ]
      ]

  -- After a first command that adds a dependency to a work item, a new command to complete that work
  -- item is refused.
  pub created_dependency_blocks :
      (c : CreateDependencyCommand) (id : ℕ) (d : WorkItemActionCommand) (n m : NewIds) (t : Tables)
      {t' : Tables} {r : DependencyCreatedResult}
      → get_record t.idempotency (creation_operation l) c.idempotency_key ≡ none
      → execute_creation l c id n t ≡ ok (t', r)
      → get_record t'.idempotency (action_operation l) d.idempotency_key ≡ none
      → d.work_item_id ≡ c.work_item_id
      → d.action ≡ complete
      → succeeds (execute_action l d m t') ≡ false
  unfolding write_creation
  created_dependency_blocks c id d n m t {t'} new h fresh same e =
      let (item, (dependency, (written, opened))) = creation-eq-ok c id n t new h in
      let there = any-snoc (is_open_of l c.work_item_id) t.dependencies dependency opened in
      open_blocks d m t' fresh e (
        subst (λ i. any (is_open_of l i) t'.dependencies ≡ true) (sym same)
          (subst (λ u. any (is_open_of l c.work_item_id) u.dependencies ≡ true) (sym written)
            there))
