-- ===== src/WorkItemService/Action.antt =====
-- application/work_item_lifecycle.py: WorkItemLifecycleHandler. It locks its idempotency key first, so
-- runs with one key come one after the other. An exception rolls every write back.
use legal_workbench.Prelude.{
  ℕ, Bool, true, false, ◌&&◌, Option, none, some, List, [], ◌∷◌, ◌++◌, Text, keep, text, utc_now,
  Result, ok, err, ◌>>=◌, ◌>>◌, not, raise_if, external_error, entity_not_found, eq, nat_eq,
  text_eq, keep, find_row, update_row,
}
use legal_workbench.Prelude.Int.{pos}
use legal_workbench.Prelude.Values.{Value, str, int, Dict, str_of, is_json, is_json_dict}
use legal_workbench.Audit.{
  audited_source, IdempotencyRecord, get_record, require_matching_replay, field_of,
}
use legal_workbench.WorkItem.{WorkItem, WorkItemDependency, ActionRequest, apply}
use legal_workbench.WorkItem.Enums.{active, dependency_status_eq}
use legal_workbench.WorkItem.Values.{status_value, action_value, parse_status}
use legal_workbench.WorkItemService.Model.{
  Tables, NewIds, WorkItemActionCommand, WorkItemActionResult, Library, work_item_key, text_or_null,
  time_or_null, saved_work_item,
}

module _ (l : Library) where
  open l use {uuid, number, request_hash, render}

  abbrev pub uuid_value : ℕ → Value
  uuid_value n = str (uuid.show n)

  -- The payload that is hashed.
  abbrev pub action_payload : WorkItemActionCommand → Dict
  action_payload c =
      (text "workItemId", uuid_value c.work_item_id)
      ∷ (text "action", str (action_value c.action))
      ∷ (text "expectedVersion", int (pos c.expected_version))
      ∷ (text "reason", text_or_null c.reason)
      ∷ (text "ownerId", text_or_null c.owner_id)
      ∷ (text "deadline", time_or_null c.deadline)
      ∷ (text "nextAction", text_or_null c.next_action)
      ∷ (text "waitingPartyId", text_or_null c.waiting_party_id)
      ∷ (text "blockerOwnerId", text_or_null c.blocker_owner_id)
      ∷ []

  abbrev pub action_response : WorkItem → Dict
  action_response item =
      (text "workItemId", uuid_value item.id)
      ∷ (text "status", str (status_value item.status))
      ∷ (text "version", int (pos item.version))
      ∷ []

  -- WorkItemActionResult.from_replay
  unfoldable pub action_from_replay : Dict → Result WorkItemActionResult
  action_from_replay payload = do
    id_value ← field_of payload (text "workItemId")
    id ← uuid.parse (str_of render id_value)
    status_text ← field_of payload (text "status")
    status ← parse_status (str_of render status_text)
    version_value ← field_of payload (text "version")
    version ← number.parse (str_of render version_value)
    ok (record { work_item_id = id; status = status; version = version; idempotent_replay = true })

  abbrev pub is_open_of : ℕ → WorkItemDependency → Bool
  is_open_of item_id d = eq d.work_item_id item_id && eq d.status active

  abbrev pub action_request :
      WorkItemActionCommand → WorkItem → List WorkItemDependency → ActionRequest
  action_request c item dependencies = record {
    action = c.action;
    actor_id = c.actor_id.value;
    reason = c.reason;
    expected_version = c.expected_version;
    open_dependencies = keep (is_open_of item.id) dependencies;
    owner_id = c.owner_id;
    deadline = c.deadline;
    next_action = c.next_action;
    waiting_party_id = c.waiting_party_id;
    blocker_owner_id = c.blocker_owner_id;
  }

  abbrev pub action_operation : Text
  action_operation = text "work_item_action"

  -- The payload of the audit event.
  abbrev pub action_audit : WorkItemActionCommand → WorkItem → Dict
  action_audit c item =
      action_response item
      ++ (text "action", str (action_value c.action))
        ∷ (text "reason", text_or_null c.reason)
        ∷ (text "ownerId", text_or_null c.owner_id)
        ∷ (text "deadline", time_or_null c.deadline)
        ∷ (text "nextAction", text_or_null c.next_action)
        ∷ (text "waitingPartyId", text_or_null c.waiting_party_id)
        ∷ (text "blockerOwnerId", text_or_null c.blocker_owner_id)
        ∷ []

  -- The commit, which writes the payload of the audit event as JSON: json.dumps raises a TypeError for
  -- a datetime, which the database layer passes on as its own exception. The other payloads hold texts
  -- and numbers only.
  unfoldable pub check_audit : WorkItemActionCommand → WorkItem → Result (Unit {0})
  unfolding is_json
  check_audit c item = raise_if (not (is_json_dict (action_audit c item))) external_error

  -- The writes after a successful `apply`.
  unfoldable pub write_action : WorkItemActionCommand → NewIds → WorkItem → Tables → Tables
  unfolding audited_source
  write_action c n item t = record t {
    work_items = update_row work_item_key item.id (λ row. saved_work_item row item) t.work_items;
    audit_events =
        t.audit_events
        ++ record {
          id = n.audit_id;
          aggregate_type = text "work_item";
          aggregate_id = item.id;
          event_type = text "work_item_" ++ action_value c.action;
          actor_id = c.actor_id.value;
          payload = action_audit c item;
          correlation_id = c.correlation_id;
          actor_source = audited_source c.actor_id (text "system");
          created_at = utc_now n.clock;
        }
          ∷ [];
    outbox_events =
        t.outbox_events
        ++ record {
          id = n.event_id;
          event_type = text "WorkItemChanged";
          aggregate_type = text "work_item";
          aggregate_id = item.id;
          payload = action_response item ++ (text "action", str (action_value c.action)) ∷ [];
          correlation_id = c.correlation_id;
          occurred_at = utc_now n.clock;
        }
          ∷ [];
    idempotency =
        t.idempotency
        ++ record {
          id = n.record_id;
          operation = action_operation;
          idempotency_key = c.idempotency_key;
          request_hash = request_hash (action_payload c);
          response_payload = action_response item;
          created_at = utc_now n.clock;
          expires_at = none;
        }
          ∷ [];
  }

  abbrev pub action_result : WorkItem → WorkItemActionResult
  action_result item = record {
    work_item_id = item.id;
    status = item.status;
    version = item.version;
    idempotent_replay = false;
  }

  -- `if item is None: raise`
  abbrev pub found {ℓ} : {A : Type ℓ} → Option A → Result A
  found none = err entity_not_found
  found (some a) = ok a

  abbrev pub act :
      WorkItemActionCommand
      → NewIds
      → Tables
      → Option IdempotencyRecord
      → Result (Tables × WorkItemActionResult)
  act c n t (some r) = do result ← action_from_replay r.response_payload; ok (t, result)
  act c n t none = do
    item ← found (find_row work_item_key t.work_items c.work_item_id)
    changed ← apply item (action_request c item t.dependencies) n.clock
    check_audit c changed
    ok (write_action c n changed t, action_result changed)

  -- WorkItemLifecycleHandler.execute
  unfoldable pub execute_action :
      WorkItemActionCommand → NewIds → Tables → Result (Tables × WorkItemActionResult)
  execute_action c n t = do
    replay ←
        require_matching_replay (get_record t.idempotency action_operation c.idempotency_key)
          (request_hash (action_payload c))
    act c n t replay
