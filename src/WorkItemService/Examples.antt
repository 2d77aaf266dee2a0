-- ===== src/WorkItemService/Examples.antt =====
-- Two handlers at work: the theorems about them at concrete inputs.
use legal_workbench.Prelude.{
  succeeds, ◌≡◌, refl, true, false, none, some, [], ◌∷◌, Text, text, ok, err, idempotency_conflict,
  code_codec, utc_now, external_error, length, find_row, strip_or_none, strip, lstrip, rstrip,
  is_space,
}
use legal_workbench.Prelude.Int.{pos}
use legal_workbench.Prelude.Values.{Value, int, Dict, get, str_of, is_json}
use legal_workbench.WorkItem.{
  WorkItem, apply, dispatch, WorkItemDependency, create_dependency, touch_dependency_change,
}
use legal_workbench.WorkItem.Enums.{
  start, high, system, todo, in_progress, active, approval, complete,
}
use legal_workbench.WorkItemService.Action.{
  action_request, action_result, execute_action, write_action, check_audit,
}
use legal_workbench.WorkItemService.Model.{
  Tables, NewIds, WorkItemActionCommand, Library, work_item_key,
}
use legal_workbench.WorkItemService.Creation.{
  CreateDependencyCommand, execute_creation, write_creation, creation_result,
}
use legal_workbench.WorkItemService.Blocking.{created_dependency_blocks}
use legal_workbench.WorkItemService.Effects.{first_action_effects}
use legal_workbench.WorkItemService.Replay.{action, run, repeat_action, reused_key_refused}

abbrev render : Value → Text
render (int (pos n)) = n ∷ []
render _ = []

abbrev reason_hash : Dict → Text
reason_hash d = elim (get d (text "reason")) [ none ↦ [] | some v ↦ str_of render v ]

abbrev library : Library
library = record {
  uuid = code_codec;
  number = code_codec;
  render = render;
  render_int = λ n. refl;
  request_hash = reason_hash;
}

abbrev item : WorkItem
item = record {
  id = 1;
  matter_id = 7;
  title = text "Review contract";
  owner_id = text "legal";
  priority = high;
  priority_source = system;
  next_action = text "read";
  status = todo;
  collaborator_ids = [];
  ai_suggested_priority = none;
  priority_reasons = [];
  override_reason = none;
  estimated_minutes = none;
  waiting_party_id = none;
  waiting_reason = none;
  waiting_since = none;
  paused_reason = none;
  is_blocked = false;
  blocker_reason = none;
  blocker_owner_id = none;
  planned_start_at = none;
  planned_complete_at = none;
  completed_at = none;
  cancelled_at = none;
  cancel_reason = none;
  sequence_order = pos 0;
  priority_confirmed_by = none;
  priority_confirmed_at = none;
  version = 1;
}

abbrev started : WorkItem
started = record item { status = in_progress; planned_start_at = some (utc_now 5); version = 2 }

abbrev stored : Tables
stored = record {
  work_items = item ∷ record item { id = 2 } ∷ [];
  dependencies = [];
  audit_events = [];
  outbox_events = [];
  idempotency = [];
}

abbrev ids : NewIds
ids = record { audit_id = 10; event_id = 11; record_id = 12; clock = 5 }

abbrev command : WorkItemActionCommand
command = record {
  work_item_id = 1;
  action = start;
  expected_version = 1;
  actor_id = record { value = text "legal"; identity_source = none };
  correlation_id = text "c";
  idempotency_key = text "k";
  reason = some (text "now");
  owner_id = none;
  deadline = none;
  next_action = none;
  waiting_party_id = none;
  blocker_owner_id = none;
}

abbrev other_command : WorkItemActionCommand
other_command = record command {
  work_item_id = 2;
  reason = some (text "later");
  idempotency_key = text "j";
}

abbrev written : Tables
written = write_action library command ids started stored

executed : execute_action library command ids stored ≡ ok (written, action_result library started)
unfolding execute_action apply dispatch strip_or_none strip lstrip rstrip is_space check_audit
    is_json
executed = refl

-- A deadline makes the commit fail.
refused :
    execute_action library (record command { deadline = some (utc_now 9) }) ids stored
    ≡ err external_error
unfolding execute_action apply dispatch strip_or_none strip lstrip rstrip is_space check_audit
    is_json
refused = refl

first_action_effects_example :
    (i : WorkItem) × ((changed : WorkItem) × ((command.deadline ≡ none)
        × ((find_row work_item_key stored.work_items 1 ≡ some i)
            × ((apply i (action_request library command i []) 5 ≡ ok changed)
                × ((action_result library started ≡ action_result library changed)
                    × ((find_row work_item_key written.work_items 2 ≡ some (record item { id = 2 }))
                        × ((written.dependencies ≡ [])
                            × ((length written.audit_events ≡ 1)
                                × ((length written.outbox_events ≡ 1)
                                    × (length written.idempotency ≡ 1))))))))))
first_action_effects_example = first_action_effects library command ids stored 2 refl executed

repeat_action_example :
    execute_action library command ids (run library (action other_command ids ∷ []) written)
    ≡ ok (
      run library (action other_command ids ∷ []) written,
      record (action_result library started) { idempotent_replay = true },
    )
repeat_action_example =
    repeat_action library command ids ids stored (action other_command ids ∷ []) refl executed

reused_key_refused_example :
    execute_action library
      (record other_command { idempotency_key = text "k" })
      ids
      (run library (action other_command ids ∷ []) written)
    ≡ err idempotency_conflict
reused_key_refused_example =
    reused_key_refused library command (record other_command { idempotency_key = text "k" }) ids ids
      stored (action other_command ids ∷ []) refl executed refl refl

abbrev creation : CreateDependencyCommand
creation = record {
  work_item_id = 1;
  work_item_version = 1;
  actor_id = record { value = text "legal"; identity_source = none };
  correlation_id = text "c";
  idempotency_key = text "d";
  dependency_type = approval;
  depends_on_work_item_id = some 2;
  external_party_id = none;
  description = none;
}

abbrev dependency : WorkItemDependency
dependency = record {
  id = 40;
  work_item_id = 1;
  dependency_type = approval;
  status = active;
  depends_on_work_item_id = some 2;
  external_party_id = none;
  description = none;
  satisfied_at = none;
  satisfied_by = none;
  waived_by = none;
  waived_at = none;
  version = 1;
}

abbrev in_work : Tables
in_work = record stored {
  work_items = record item { status = in_progress } ∷ record item { id = 2 } ∷ [];
}

abbrev held_back : WorkItem
held_back = record item { status = in_progress; version = 2 }

abbrev with_dependency : Tables
with_dependency = write_creation library creation ids held_back dependency in_work

created :
    execute_creation library creation 40 ids in_work
    ≡ ok (with_dependency, creation_result library held_back dependency)
unfolding execute_creation create_dependency touch_dependency_change strip_or_none
created = refl

abbrev completing : WorkItemActionCommand
completing = record command { action = complete; expected_version = 2 }

created_dependency_blocks_example :
    succeeds (execute_action library completing ids with_dependency) ≡ false
unfolding write_creation
created_dependency_blocks_example =
    created_dependency_blocks library creation 40 completing ids ids in_work refl created refl refl
      refl
