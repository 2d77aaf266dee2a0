-- ===== src/WorkItemService/Resolution.antt =====
-- application/work_item_lifecycle.py: ResolveDependencyHandler, with the same order of locks as
-- WorkItemLifecycleHandler.
use legal_workbench.Prelude.{
  true, false, not, Option, none, some, [], ◌∷◌, ◌++◌, Text, text, utc_now, Result, ok, ◌>>=◌, ◌>>◌,
  raise_if, invalid_state_transition, eq, nat_eq, text_eq, find_row, update_row,
}
use legal_workbench.Prelude.Int.{pos}
use legal_workbench.Prelude.Values.{str, int, Dict, str_of}
use legal_workbench.Audit.{
  audited_source, IdempotencyRecord, get_record, require_matching_replay, field_of,
}
use legal_workbench.WorkItem.{WorkItem, WorkItemDependency, resolve, touch_dependency_change}
use legal_workbench.WorkItem.Enums.{dependency_status_eq}
use legal_workbench.WorkItem.Values.{dependency_value, parse_dependency_status}
use legal_workbench.WorkItemService.Model.{
  Tables, NewIds, ResolveDependencyCommand, DependencyResolvedResult, Library, work_item_key,
  dependency_key, text_or_null, saved_work_item, saved_dependency,
}
use legal_workbench.WorkItemService.Action.{uuid_value, found}

module _ (l : Library) where
  open l use {uuid, number, request_hash, render}

  abbrev pub resolution_payload : ResolveDependencyCommand → Dict
  resolution_payload c =
      (text "workItemId", uuid_value l c.work_item_id)
      ∷ (text "dependencyId", uuid_value l c.dependency_id)
      ∷ (text "workItemVersion", int (pos c.work_item_version))
      ∷ (text "dependencyVersion", int (pos c.dependency_version))
      ∷ (text "reason", text_or_null c.reason)
      ∷ []

  abbrev pub resolution_response : WorkItem → WorkItemDependency → Dict
  resolution_response item d =
      (text "workItemId", uuid_value l item.id)
      ∷ (text "dependencyId", uuid_value l d.id)
      ∷ (text "workItemVersion", int (pos item.version))
      ∷ (text "dependencyVersion", int (pos d.version))
      ∷ (text "status", str (dependency_value d.status))
      ∷ []

  -- DependencyResolvedResult.from_replay
  unfoldable pub resolution_from_replay : Dict → Result DependencyResolvedResult
  resolution_from_replay payload = do
    item_value ← field_of payload (text "workItemId")
    item ← uuid.parse (str_of render item_value)
    dependency_text ← field_of payload (text "dependencyId")
    dependency ← uuid.parse (str_of render dependency_text)
    item_version ← field_of payload (text "workItemVersion")
    version ← number.parse (str_of render item_version)
    dependency_version ← field_of payload (text "dependencyVersion")
    resolved_version ← number.parse (str_of render dependency_version)
    status_text ← field_of payload (text "status")
    status ← parse_dependency_status (str_of render status_text)
    ok (record {
      work_item_id = item;
      dependency_id = dependency;
      work_item_version = version;
      dependency_version = resolved_version;
      status = status;
      idempotent_replay = true;
    })

  abbrev pub resolution_operation : Text
  resolution_operation = text "resolve_work_item_dependency"

  unfoldable pub write_resolution :
      ResolveDependencyCommand → NewIds → WorkItem → WorkItemDependency → Tables → Tables
  unfolding audited_source
  write_resolution c n item d t = record t {
    dependencies = update_row dependency_key d.id (λ row. saved_dependency row d) t.dependencies;
    work_items = update_row work_item_key item.id (λ row. saved_work_item row item) t.work_items;
    audit_events =
        t.audit_events
        ++ record {
          id = n.audit_id;
          aggregate_type = text "work_item_dependency";
          aggregate_id = d.id;
          event_type = text "work_item_dependency_resolved";
          actor_id = c.actor_id.value;
          payload = resolution_response item d ++ (text "reason", text_or_null c.reason) ∷ [];
          correlation_id = c.correlation_id;
          actor_source = audited_source c.actor_id (text "system");
          created_at = utc_now n.clock;
        }
          ∷ [];
    outbox_events =
        t.outbox_events
        ++ record {
          id = n.event_id;
          event_type = text "WorkItemDependencyResolved";
          aggregate_type = text "work_item_dependency";
          aggregate_id = d.id;
          payload = resolution_response item d;
          correlation_id = c.correlation_id;
          occurred_at = utc_now n.clock;
        }
          ∷ [];
    idempotency =
        t.idempotency
        ++ record {
          id = n.record_id;
          operation = resolution_operation;
          idempotency_key = c.idempotency_key;
          request_hash = request_hash (resolution_payload c);
          response_payload = resolution_response item d;
          created_at = utc_now n.clock;
          expires_at = none;
        }
          ∷ [];
  }

  abbrev pub resolution_result : WorkItem → WorkItemDependency → DependencyResolvedResult
  resolution_result item d = record {
    work_item_id = item.id;
    dependency_id = d.id;
    work_item_version = item.version;
    dependency_version = d.version;
    status = d.status;
    idempotent_replay = false;
  }

  abbrev pub settle :
      ResolveDependencyCommand
      → NewIds
      → Tables
      → Option IdempotencyRecord
      → Result (Tables × DependencyResolvedResult)
  settle c n t (some r) = do result ← resolution_from_replay r.response_payload; ok (t, result)
  settle c n t none = do
    item ← found l (find_row work_item_key t.work_items c.work_item_id)
    dependency ← found l (find_row dependency_key t.dependencies c.dependency_id)
    raise_if (not (eq dependency.work_item_id item.id)) invalid_state_transition
    resolved ← resolve dependency c.actor_id.value c.dependency_version n.clock
    touched ← touch_dependency_change item c.work_item_version
    ok (write_resolution c n touched resolved t, resolution_result touched resolved)

  -- ResolveDependencyHandler.execute
  unfoldable pub execute_resolution :
      ResolveDependencyCommand → NewIds → Tables → Result (Tables × DependencyResolvedResult)
  execute_resolution c n t = do
    replay ←
        require_matching_replay (get_record t.idempotency resolution_operation c.idempotency_key)
          (request_hash (resolution_payload c))
    settle c n t replay
