-- ===== src/AttemptStore/Examples.antt =====
-- The table of attempts at work: the theorems about it at concrete inputs.
use legal_workbench.Prelude.{
  ◌≡◌, ◌≤◌, ◌<◌, refl, false, none, some, [], ◌∷◌, List, text, utc_now, ok, arith, any, strip,
  lstrip, rstrip, is_space,
}
use legal_workbench.Prelude.Int.{pos}
use legal_workbench.Agents.Enums.{queued, running, preparing, standalone}
use legal_workbench.Agents.Attempt.{AgentAttemptLease, AgentRunAttempt, ensure_current, start}
use legal_workbench.Agents.Run.{AgentRun, AgentRunStatusChange, transition_to, status_change}
use legal_workbench.AttemptStore.{active_lease_predicates, is_expired, conflicts, add}
use legal_workbench.AttemptStore.Service.{AttemptIds, StartInput, start_run, claim}
use legal_workbench.AttemptStore.Equivalence.{beating, completing, is_attempt}
use legal_workbench.AttemptStore.Histories.{
  Call, claiming, requesting, run, reference_run, history-eq-reference,
}
use legal_workbench.AttemptStore.Keys.{accepted, has_token, one_row}
use legal_workbench.AttemptStore.Starts.{started_run}

abbrev ids : AttemptIds
ids = record { id = 5; lease_token = 6 }

abbrev held : AgentAttemptLease
held = record { run_id = 1; attempt_number = pos 1; lease_token = 6 }

abbrev calls : List Call
calls =
    claiming 1 (pos 1) (text "w") ids (utc_now 10)
    ∷ claiming 1 (pos 1) (text "v") (record { id = 7; lease_token = 8 }) (utc_now 11)
    ∷ requesting (beating held (utc_now 20)) (utc_now 21)
    ∷ requesting (completing held (utc_now 30)) (utc_now 30)
    ∷ []

history-eq-reference_example : run 60 calls [] ≡ reference_run 60 0 calls []
history-eq-reference_example =
    history-eq-reference 60 0 calls (omega arith) (tt, (tt, ((refl, refl), ((refl, refl), tt))))

one_row_example :
    (accepted (has_token 6) (run 60 calls []) ≤ 1)
    × ((accepted (is_attempt 1 (pos 1)) (run 60 calls []) ≤ 1)
        × ((accepted (active_lease_predicates held (utc_now 25) (utc_now 26)) (run 60 calls []) ≤ 1)
            × (accepted (is_expired 1 (pos 1) (utc_now 25)) (run 60 calls []) ≤ 1)))
one_row_example = one_row 60 calls 6 1 (pos 1) held (utc_now 25) (utc_now 26)

abbrev fresh : AgentRun
fresh = record {
  id = 1;
  agent_definition_id = 2;
  context_snapshot_id = 3;
  status = queued;
  objective = text "judge";
  prompt_snapshot = text "p";
  working_directory = text "/runs/1";
  attempt_number = pos 1;
  max_attempts = pos 3;
  correlation_id = text "c";
  created_by = text "system";
  matter_id = none;
  work_item_id = none;
  feishu_message_id = none;
  input_payload = [];
  output_payload = [];
  raw_stdout = none;
  raw_stderr = none;
  started_at = none;
  heartbeat_at = none;
  finished_at = none;
  timeout_at = none;
  failure_code = none;
  failure_message = none;
  runtime_version = none;
  agent_definition_version = text "1";
  prompt_version = text "1";
  validation_errors = [];
  repair_attempted = false;
  token_usage = none;
  worker_id = none;
  lease_expires_at = none;
  created_at = utc_now 0;
  updated_at = utc_now 0;
  version = 1;
  execution_plan_id = none;
  plan_step_id = none;
  parent_run_id = none;
  retry_of_run_id = none;
  run_role = standalone;
  dependency_run_ids = [];
  pending_status_changes = [];
}

abbrev input : StartInput
input = record {
  worker_id = text "w";
  ids = ids;
  preparing_at = utc_now 10;
  claimed_at = utc_now 10;
  read_at = utc_now 10;
  first_change = 20;
  second_change = 21;
}

abbrev attempt : AgentRunAttempt
attempt = record {
  id = 5;
  run_id = 1;
  attempt_number = pos 1;
  lease_token = 6;
  worker_id = text "w";
  status = running;
  lease_expires_at = utc_now 60000010;
  started_at = utc_now 10;
  heartbeat_at = utc_now 10;
  finished_at = none;
  failure_code = none;
  failure_message = none;
}

abbrev started : AgentRun
started = record fresh {
  status = running;
  worker_id = some (text "w");
  lease_expires_at = some (utc_now 60000010);
  started_at = some (utc_now 11);
  heartbeat_at = some (utc_now 11);
  updated_at = utc_now 11;
  version = 3;
  pending_status_changes =
      status_change fresh preparing (utc_now 10) 20
      ∷ status_change (record fresh { status = preparing }) running (utc_now 11) 21
      ∷ [];
}

does_start : start_run 60 input fresh [] ≡ ok (started, (attempt ∷ [], held))
unfolding start_run claim add start transition_to strip lstrip rstrip is_space
does_start = refl

started_run_example :
    (a : AgentRunAttempt) × ((c : AgentRunStatusChange) × ((d : AgentRunStatusChange)
        × ((started.status ≡ running)
            × ((started.worker_id ≡ some (text "w"))
                × ((started.pending_status_changes ≡ c ∷ d ∷ [])
                    × ((c.to_status ≡ preparing)
                        × ((d.to_status ≡ running)
                            × ((c.changed_at.ticks < d.changed_at.ticks)
                                × ((attempt ∷ [] ≡ a ∷ [])
                                    × ((any (conflicts a) [] ≡ false)
                                        × ((a.run_id ≡ 1)
                                            × (ensure_current a held (some (utc_now 40)) 0
                                                ≡ ok tt))))))))))))
started_run_example = started_run 60 0 input fresh [] (utc_now 40) does_start refl (omega arith)
