-- ===== src/Agents/Run/Examples.antt =====
-- A run at work: the theorems about runs at concrete inputs.
use legal_workbench.Prelude.{◌≡◌, refl, false, none, List, [], ◌∷◌, ◌++◌, text, utc_now}
use legal_workbench.Prelude.Int.{pos}
use legal_workbench.Agents.Enums.{
  queued, preparing, running, failed, completed, timed_out, standalone, run_status_eq, cancelled,
}
use legal_workbench.Agents.Run.{AgentRun, transition_to, heartbeat, drain_status_changes}
use legal_workbench.Agents.Run.Trail.{
  Call, moving, beating, draining, perform, run, stored, Leads, trail,
}
use legal_workbench.Agents.Run.Progress.{run-terminal, route, moves, can_complete}

abbrev fresh : AgentRun
fresh = record {
  id = 1;
  agent_definition_id = 2;
  context_snapshot_id = 3;
  status = queued;
  objective = text "judge";
  prompt_snapshot = text "p";
  working_directory = text "/runs/1";
  attempt_number = pos 1;
  max_attempts = pos 3;
  correlation_id = text "c";
  created_by = text "system";
  matter_id = none;
  work_item_id = none;
  feishu_message_id = none;
  input_payload = [];
  output_payload = [];
  raw_stdout = none;
  raw_stderr = none;
  started_at = none;
  heartbeat_at = none;
  finished_at = none;
  timeout_at = none;
  failure_code = none;
  failure_message = none;
  runtime_version = none;
  agent_definition_version = text "1";
  prompt_version = text "1";
  validation_errors = [];
  repair_attempted = false;
  token_usage = none;
  worker_id = none;
  lease_expires_at = none;
  created_at = utc_now 0;
  updated_at = utc_now 0;
  version = 1;
  execution_plan_id = none;
  plan_step_id = none;
  parent_run_id = none;
  retry_of_run_id = none;
  run_role = standalone;
  dependency_run_ids = [];
  pending_status_changes = [];
}

abbrev calls : List Call
calls =
    moving preparing none 1 11
    ∷ moving completed none 2 12
    ∷ draining
    ∷ moving running none 3 13
    ∷ beating none 4
    ∷ moving failed none 5 14
    ∷ []

does_fail : (run fresh calls).status ≡ failed
unfolding run perform transition_to heartbeat drain_status_changes
does_fail = refl

trail_example :
    Leads queued
      (stored fresh calls ++ (run fresh calls).pending_status_changes)
      (run fresh calls).status
trail_example = trail fresh calls refl

abbrev over : AgentRun
over = record fresh { status = cancelled }

run-terminal_example : (run over calls).status ≡ cancelled
run-terminal_example = run-terminal over calls refl

abbrev late : AgentRun
late = record fresh { status = timed_out }

can_complete_example : (run late (moves 9 (route timed_out))).status ≡ completed
can_complete_example = can_complete late 9 refl
