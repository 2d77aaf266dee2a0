-- ===== src/WorkItemService/Replay.antt =====
-- Repeated calls: the answers of WorkItemActionResult.from_replay and DependencyResolvedResult.from_replay.
-- A history is a list of calls of the two handlers; one that raises writes nothing.
use legal_workbench.Prelude.{
  ◌≡◌, refl, sym, ap, ◌∙◌, true, false, none, some, List, [], ◌∷◌, ◌++◌, Text, Result, ok, err,
  idempotency_conflict, eq, nat_eq, text_eq, Result-cases, ok-injective, ok-ne-err, Option-cases,
  inl, inr, Bool-cases, eq_self, subst,
}
use legal_workbench.Audit.{IdempotencyRecord, get_record}
use legal_workbench.WorkItem.{WorkItem, WorkItemDependency}
use legal_workbench.Audit.{IdempotencyRecord, get_record, get_record-append, is_record}
use legal_workbench.WorkItem.{WorkItem, WorkItemDependency}
use legal_workbench.WorkItem.Values.{parse_status-value, parse_dependency_status-value}
use legal_workbench.WorkItemService.Action.{
  action_from_replay, action_operation, action_payload, action_response, action_result,
  execute_action, write_action,
}
use legal_workbench.WorkItemService.Resolution.{
  execute_resolution, resolution_from_replay, resolution_operation, resolution_payload,
  resolution_response, resolution_result, write_resolution,
}
use legal_workbench.WorkItemService.Model.{
  Tables, NewIds, WorkItemActionCommand, WorkItemActionResult, ResolveDependencyCommand,
  DependencyResolvedResult, Library,
}
use legal_workbench.WorkItemService.Effects.{
  act-writes, execute_action-first, settle-writes, execute_resolution-first,
}

pub data Call : Type 0 where
  action : WorkItemActionCommand → NewIds → Call
  resolution : ResolveDependencyCommand → NewIds → Call

-- The tables after a transaction: those before it, if it raises.
abbrev pub committed {ℓ} : {A : Type ℓ} → Tables → Result (Tables × A) → Tables
committed t (ok (t', _)) = t'
committed t (err _) = t

module _ (l : Library) where
  abbrev pub perform : Call → Tables → Tables
  perform (action c n) t = committed t (execute_action l c n t)
  perform (resolution c n) t = committed t (execute_resolution l c n t)

  abbrev pub run : List Call → Tables → Tables
  run [] t = t
  run (call ∷ calls) t = run calls (perform call t)

  action_replay :
      (item : WorkItem)
      → action_from_replay l (action_response l item)
        ≡ ok (record (action_result l item) { idempotent_replay = true })
  unfolding action_from_replay
  action_replay item =
      rw
        (
          l.uuid.parse-show item.id,
          parse_status-value item.status,
          l.render_int item.version,
          l.number.parse-show item.version,
        )
        refl

  resolution_replay :
      (item : WorkItem) (d : WorkItemDependency)
      → resolution_from_replay l (resolution_response l item d)
        ≡ ok (record (resolution_result l item d) { idempotent_replay = true })
  unfolding resolution_from_replay
  resolution_replay item d =
      rw
        (
          l.uuid.parse-show item.id,
          l.uuid.parse-show d.id,
          l.render_int item.version,
          l.render_int d.version,
          l.number.parse-show item.version,
          l.number.parse-show d.version,
          parse_dependency_status-value d.status,
        )
        refl

  abbrev Keeps : Tables → Tables → Type 0
  Keeps t t' =
      (operation key : Text) (r : IdempotencyRecord)
      → get_record t.idempotency operation key ≡ some r
      → get_record t'.idempotency operation key ≡ some r

  kept_by_append :
      (rs : List IdempotencyRecord) (q : IdempotencyRecord) (operation key : Text)
      (r : IdempotencyRecord)
      → get_record rs operation key ≡ some r
      → get_record (rs ++ q ∷ []) operation key ≡ some r
  kept_by_append rs q operation key r h = get_record-append rs (q ∷ []) operation key ∙ rw h refl

  write_action-Keeps :
      (c : WorkItemActionCommand) (n : NewIds) (item : WorkItem) (t : Tables)
      → Keeps t (write_action l c n item t)
  unfolding write_action
  write_action-Keeps c n item t = kept_by_append t.idempotency _

  write_resolution-Keeps :
      (c : ResolveDependencyCommand) (n : NewIds) (item : WorkItem) (d : WorkItemDependency)
      (t : Tables)
      → Keeps t (write_resolution l c n item d t)
  unfolding write_resolution
  write_resolution-Keeps c n item d t = kept_by_append t.idempotency _

  execute_action-replayed :
      (c : WorkItemActionCommand) (n : NewIds) (t : Tables) {t' : Tables} {r : WorkItemActionResult}
      {q : IdempotencyRecord}
      → get_record t.idempotency (action_operation l) c.idempotency_key ≡ some q
      → execute_action l c n t ≡ ok (t', r)
      → t' ≡ t
  unfolding execute_action
  execute_action-replayed c n t {t'} {r} {q} e h =
      elim (Bool-cases (eq q.request_hash (l.request_hash (action_payload l c)))) [
        | inr d ↦ absurd (ok-ne-err (rw (e, d) at h))
        | inl d ↦ elim (Result-cases (action_from_replay l q.response_payload)) [
          | inr (x, a) ↦ absurd (ok-ne-err (rw (e, d, a) at h))
          | inl (x, a) ↦ sym (ap (λ p. p.0) (ok-injective (rw (e, d, a) at h)))
        ]
      ]

  execute_resolution-replayed :
      (c : ResolveDependencyCommand) (n : NewIds) (t : Tables) {t' : Tables}
      {r : DependencyResolvedResult} {q : IdempotencyRecord}
      → get_record t.idempotency (resolution_operation l) c.idempotency_key ≡ some q
      → execute_resolution l c n t ≡ ok (t', r)
      → t' ≡ t
  unfolding execute_resolution
  execute_resolution-replayed c n t {t'} {r} {q} e h =
      elim (Bool-cases (eq q.request_hash (l.request_hash (resolution_payload l c)))) [
        | inr d ↦ absurd (ok-ne-err (rw (e, d) at h))
        | inl d ↦ elim (Result-cases (resolution_from_replay l q.response_payload)) [
          | inr (x, a) ↦ absurd (ok-ne-err (rw (e, d, a) at h))
          | inl (x, a) ↦ sym (ap (λ p. p.0) (ok-injective (rw (e, d, a) at h)))
        ]
      ]

  execute_action-Keeps :
      (c : WorkItemActionCommand) (n : NewIds) (t : Tables) {t' : Tables} {r : WorkItemActionResult}
      → execute_action l c n t ≡ ok (t', r)
      → Keeps t t'
  execute_action-Keeps c n t h =
      elim (Option-cases (get_record t.idempotency (action_operation l) c.idempotency_key)) [
        | inr (q, e) ↦
            subst (Keeps t) (sym (execute_action-replayed c n t e h)) (λ operation key r k. k)
        | inl e ↦
            let (_, (changed, (_, (_, (written, _))))) =
              act-writes l n t c (sym (execute_action-first l c n t e) ∙ h) in
            subst (Keeps t) (sym written) (write_action-Keeps c n changed t)
      ]

  execute_resolution-Keeps :
      (c : ResolveDependencyCommand) (n : NewIds) (t : Tables) {t' : Tables}
      {r : DependencyResolvedResult}
      → execute_resolution l c n t ≡ ok (t', r)
      → Keeps t t'
  execute_resolution-Keeps c n t h =
      elim (Option-cases (get_record t.idempotency (resolution_operation l) c.idempotency_key)) [
        | inr (q, e) ↦
            subst (Keeps t) (sym (execute_resolution-replayed c n t e h)) (λ operation key r k. k)
        | inl e ↦
            let (item, (d, (written, _))) =
              settle-writes l n t c (sym (execute_resolution-first l c n t e) ∙ h) in
            subst (Keeps t) (sym written) (write_resolution-Keeps c n item d t)
      ]

  perform-Keeps : (call : Call) (t : Tables) → Keeps t (perform call t)
  perform-Keeps (action c n) t = elim (Result-cases (execute_action l c n t)) [
    | inl ((t', r), e) ↦ subst (Keeps t) (sym (ap (committed t) e)) (execute_action-Keeps c n t e)
    | inr (x, e) ↦ subst (Keeps t) (sym (ap (committed t) e)) (λ operation key r k. k)
  ]
  perform-Keeps (resolution c n) t = elim (Result-cases (execute_resolution l c n t)) [
    | inl ((t', r), e) ↦
        subst (Keeps t) (sym (ap (committed t) e)) (execute_resolution-Keeps c n t e)
    | inr (x, e) ↦ subst (Keeps t) (sym (ap (committed t) e)) (λ operation key r k. k)
  ]

  run-Keeps : (calls : List Call) (t : Tables) → Keeps t (run calls t)
  run-Keeps [] t operation key r k = k
  run-Keeps (call ∷ calls) t operation key r k =
      run-Keeps calls (perform call t) operation key r (perform-Keeps call t operation key r k)

  -- The record that a first execution leaves.
  IsRecorded : WorkItemActionCommand → Tables → WorkItemActionResult → Type 0
  IsRecorded c t r =
      (q : IdempotencyRecord) × (get_record t.idempotency (action_operation l) c.idempotency_key
        ≡ some q)
      × (q.request_hash ≡ l.request_hash (action_payload l c))
      × (action_from_replay l q.response_payload ≡ ok (record r { idempotent_replay = true }))

  found_after_append :
      (rs : List IdempotencyRecord) (q : IdempotencyRecord) (operation key : Text)
      → get_record rs operation key ≡ none
      → is_record operation key q ≡ true
      → get_record (rs ++ q ∷ []) operation key ≡ some q
  found_after_append rs q operation key h e =
      get_record-append rs (q ∷ []) operation key ∙ rw (h, e) refl

  write_action-IsRecorded :
      (c : WorkItemActionCommand) (n : NewIds) (item : WorkItem) (t : Tables)
      → get_record t.idempotency (action_operation l) c.idempotency_key ≡ none
      → IsRecorded c (write_action l c n item t) (action_result l item)
  unfolding write_action IsRecorded
  write_action-IsRecorded c n item t h = (
    _,
    found_after_append t.idempotency _ (action_operation l) c.idempotency_key h
        (eq_self c.idempotency_key),
    refl,
    action_replay item,
  )

  execute_action-IsRecorded :
      (c : WorkItemActionCommand) (n : NewIds) (t : Tables) {t' : Tables} {r : WorkItemActionResult}
      → get_record t.idempotency (action_operation l) c.idempotency_key ≡ none
      → execute_action l c n t ≡ ok (t', r)
      → (calls : List Call) → IsRecorded c (run calls t') r
  unfolding IsRecorded
  execute_action-IsRecorded c n t {t'} {r} e h calls =
      let (_, (changed, (_, (_, (written, answer))))) =
        act-writes l n t c (sym (execute_action-first l c n t e) ∙ h) in
      let (q, there, hashed, parsed) = subst (IsRecorded c t') (sym answer) (
        subst (λ u. IsRecorded c u (action_result l changed)) (sym written)
          (write_action-IsRecorded c n changed t e)) in
      (q, run-Keeps calls t' (action_operation l) c.idempotency_key q there, hashed, parsed)

  -- After a first execution of an action and any later calls of the two handlers, the same command
  -- returns the result of the first execution, marked as a replay, and changes nothing.
  pub repeat_action :
      (c : WorkItemActionCommand) (n m : NewIds) (t : Tables) (calls : List Call) {t' : Tables}
      {r : WorkItemActionResult}
      → get_record t.idempotency (action_operation l) c.idempotency_key ≡ none
      → execute_action l c n t ≡ ok (t', r)
      → execute_action l c m (run calls t')
        ≡ ok (run calls t', record r { idempotent_replay = true })
  unfolding execute_action IsRecorded
  repeat_action c n m t calls e h =
      let (q, there, hashed, parsed) = execute_action-IsRecorded c n t e h calls in
      rw (there, hashed, eq_self (l.request_hash (action_payload l c)), parsed) refl

  -- A command that reuses the key of a successful first execution for a payload with another hash is
  -- refused as a conflict, whatever calls of the two handlers came in between.
  pub reused_key_refused :
      (c d : WorkItemActionCommand) (n m : NewIds) (t : Tables) (calls : List Call) {t' : Tables}
      {r : WorkItemActionResult}
      → get_record t.idempotency (action_operation l) c.idempotency_key ≡ none
      → execute_action l c n t ≡ ok (t', r)
      → d.idempotency_key ≡ c.idempotency_key
      → eq (l.request_hash (action_payload l c)) (l.request_hash (action_payload l d)) ≡ false
      → execute_action l d m (run calls t') ≡ err idempotency_conflict
  unfolding execute_action IsRecorded
  reused_key_refused c d n m t calls e h same apart =
      let (q, there, hashed, parsed) = execute_action-IsRecorded c n t e h calls in
      rw (same, there, hashed, apart) refl
