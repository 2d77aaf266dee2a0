-- ===== src/WorkItemService/Creation.antt =====
-- application/workflow_handlers.py: CreateDependencyHandler, over the tables of the other handlers.
use legal_workbench.Prelude.{
  ℕ, Bool, true, false, Option, none, some, is_none, List, [], ◌∷◌, ◌++◌, Text, text, utc_now,
  Result, ok, ◌>>=◌, ◌>>◌, raise_if, entity_not_found, nat_eq, text_eq, find_row, update_row,
}
use legal_workbench.Prelude.Int.{pos}
use legal_workbench.Prelude.Values.{Value, null, str, int, Dict, str_of}
use legal_workbench.Audit.{
  ActorId, audited_source, IdempotencyRecord, get_record, require_matching_replay, field_of,
}
use legal_workbench.WorkItem.{
  WorkItem, WorkItemDependency, NewDependency, create_dependency, touch_dependency_change,
}
use legal_workbench.WorkItem.Enums.{DependencyType}
use legal_workbench.WorkItem.Values.{type_value}
use legal_workbench.WorkItemService.Model.{
  Tables, NewIds, Library, work_item_key, text_or_null, saved_work_item,
}
use legal_workbench.WorkItemService.Action.{uuid_value, found}

pub record CreateDependencyCommand : Type 0 where
  pub work_item_id : ℕ
  pub work_item_version : ℕ
  pub actor_id : ActorId
  pub correlation_id : Text
  pub idempotency_key : Text
  pub dependency_type : DependencyType
  pub depends_on_work_item_id : Option ℕ
  pub external_party_id : Option Text
  pub description : Option Text

pub record DependencyCreatedResult : Type 0 where
  pub dependency_id : ℕ
  pub work_item_version : ℕ
  pub idempotent_replay : Bool

-- The predecessor is named but not there.
abbrev pub lacks_predecessor : Option ℕ → List WorkItem → Bool
lacks_predecessor none items = false
lacks_predecessor (some i) items = is_none (find_row work_item_key items i)

-- The arguments of WorkItemDependency.create.
abbrev pub new_dependency : CreateDependencyCommand → NewDependency
new_dependency c = record {
  work_item_id = c.work_item_id;
  dependency_type = c.dependency_type;
  depends_on_work_item_id = c.depends_on_work_item_id;
  external_party_id = c.external_party_id;
  description = c.description;
}

module _ (l : Library) where
  open l use {uuid, number, request_hash, render}

  abbrev pub uuid_or_null : Option ℕ → Value
  uuid_or_null none = null
  uuid_or_null (some i) = uuid_value l i

  abbrev pub creation_payload : CreateDependencyCommand → Dict
  creation_payload c =
      (text "workItemId", uuid_value l c.work_item_id)
      ∷ (text "workItemVersion", int (pos c.work_item_version))
      ∷ (text "dependsOnWorkItemId", uuid_or_null c.depends_on_work_item_id)
      ∷ (text "dependencyType", str (type_value c.dependency_type))
      ∷ (text "externalPartyId", text_or_null c.external_party_id)
      ∷ (text "description", text_or_null c.description)
      ∷ []

  abbrev pub creation_event : WorkItemDependency → Dict
  creation_event d =
      (text "dependencyId", uuid_value l d.id)
      ∷ (text "workItemId", uuid_value l d.work_item_id)
      ∷ (text "dependsOnWorkItemId", uuid_or_null d.depends_on_work_item_id)
      ∷ (text "dependencyType", str (type_value d.dependency_type))
      ∷ []

  abbrev pub creation_response : WorkItem → WorkItemDependency → Dict
  creation_response item d =
      (text "dependencyId", uuid_value l d.id)
      ∷ (text "workItemVersion", int (pos item.version))
      ∷ []

  -- The answer to a repeated command.
  unfoldable pub creation_from_replay : Dict → Result DependencyCreatedResult
  creation_from_replay payload = do
    dependency_text ← field_of payload (text "dependencyId")
    dependency ← uuid.parse (str_of render dependency_text)
    item_version ← field_of payload (text "workItemVersion")
    version ← number.parse (str_of render item_version)
    ok (record {
      dependency_id = dependency;
      work_item_version = version;
      idempotent_replay = true;
    })

  abbrev pub creation_operation : Text
  creation_operation = text "create_work_item_dependency"

  unfoldable pub write_creation :
      CreateDependencyCommand → NewIds → WorkItem → WorkItemDependency → Tables → Tables
  unfolding audited_source
  write_creation c n item d t = record t {
    dependencies = t.dependencies ++ d ∷ [];
    work_items = update_row work_item_key item.id (λ row. saved_work_item row item) t.work_items;
    audit_events =
        t.audit_events
        ++ record {
          id = n.audit_id;
          aggregate_type = text "work_item_dependency";
          aggregate_id = d.id;
          event_type = text "work_item_dependency_created";
          actor_id = c.actor_id.value;
          payload = creation_event d;
          correlation_id = c.correlation_id;
          actor_source = audited_source c.actor_id (text "system");
          created_at = utc_now n.clock;
        }
          ∷ [];
    outbox_events =
        t.outbox_events
        ++ record {
          id = n.event_id;
          event_type = text "WorkItemDependencyCreated";
          aggregate_type = text "work_item_dependency";
          aggregate_id = d.id;
          payload = creation_event d;
          correlation_id = c.correlation_id;
          occurred_at = utc_now n.clock;
        }
          ∷ [];
    idempotency =
        t.idempotency
        ++ record {
          id = n.record_id;
          operation = creation_operation;
          idempotency_key = c.idempotency_key;
          request_hash = request_hash (creation_payload c);
          response_payload = creation_response item d;
          created_at = utc_now n.clock;
          expires_at = none;
        }
          ∷ [];
  }

  abbrev pub creation_result : WorkItem → WorkItemDependency → DependencyCreatedResult
  creation_result item d = record {
    dependency_id = d.id;
    work_item_version = item.version;
    idempotent_replay = false;
  }

  -- `id` is the one of the new dependency.
  abbrev pub create :
      CreateDependencyCommand
      → (id : ℕ) → NewIds
      → Tables
      → Option IdempotencyRecord
      → Result (Tables × DependencyCreatedResult)
  create c id n t (some r) = do result ← creation_from_replay r.response_payload; ok (t, result)
  create c id n t none = do
    item ← found l (find_row work_item_key t.work_items c.work_item_id)
    raise_if (lacks_predecessor c.depends_on_work_item_id t.work_items) entity_not_found
    d ← create_dependency id (new_dependency c)
    touched ← touch_dependency_change item c.work_item_version
    ok (write_creation c n touched d t, creation_result touched d)

  -- CreateDependencyHandler.execute
  unfoldable pub execute_creation :
      CreateDependencyCommand
      → (id : ℕ) → NewIds
      → Tables
      → Result (Tables × DependencyCreatedResult)
  execute_creation c id n t = do
    replay ←
        require_matching_replay (get_record t.idempotency creation_operation c.idempotency_key)
          (request_hash (creation_payload c))
    create c id n t replay
