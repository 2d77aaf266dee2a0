-- ===== src/Agents/Run.antt =====
-- domain/agents.py: AgentRun, its status machine, and the status changes that it records.
-- `clock` is what utc_now reads where the caller passes no time, `change_id` is what uuid4 returns.
pub mod Trail
pub mod Progress
mod Examples
use legal_workbench.Prelude.{
  ℕ, ◌+◌, ◌≡◌, refl, Bool, true, false, not, ◌&&◌, ◌||◌, Option, none, some, List, [], ◌∷◌, ◌++◌,
  Text, is_blank, DateTime, now_or, require_aware, Result, ok, err, ◌>>=◌, ◌>>◌, raise_if,
  domain_validation, invalid_state_transition, eq, if◌then◌else◌, contains, is_none,
}
use legal_workbench.Prelude.Int.{ℤ, pos, ltb_ℤ}
use legal_workbench.Prelude.Values.{Dict}
use legal_workbench.Agents.Enums.{
  AgentRunStatus, queued, preparing, running, validating, completed, needs_more_information, failed,
  timed_out, cancelled, dead_letter, AgentRunRole, run_status_eq,
}

pub record AgentRunStatusChange : Type 0 where
  pub id : ℕ
  pub agent_run_id : ℕ
  pub from_status : Option AgentRunStatus
  pub to_status : AgentRunStatus
  pub changed_at : DateTime
  pub correlation_id : Text
  pub attempt_number : ℤ
  pub failure_code : Option Text
  pub failure_message : Option Text

pub record AgentRun : Type 0 where
  pub id : ℕ
  pub agent_definition_id : ℕ
  pub context_snapshot_id : ℕ
  pub status : AgentRunStatus
  pub objective : Text
  pub prompt_snapshot : Text
  pub working_directory : Text
  pub attempt_number : ℤ
  pub max_attempts : ℤ
  pub correlation_id : Text
  pub created_by : Text
  pub matter_id : Option ℕ
  pub work_item_id : Option ℕ
  pub feishu_message_id : Option ℕ
  pub input_payload : Dict
  pub output_payload : Dict
  pub raw_stdout : Option Text
  pub raw_stderr : Option Text
  pub started_at : Option DateTime
  pub heartbeat_at : Option DateTime
  pub finished_at : Option DateTime
  pub timeout_at : Option DateTime
  pub failure_code : Option Text
  pub failure_message : Option Text
  pub runtime_version : Option Text
  pub agent_definition_version : Text
  pub prompt_version : Text
  pub validation_errors : List Text
  pub repair_attempted : Bool
  pub token_usage : Option (List (Text × ℤ))
  pub worker_id : Option Text
  pub lease_expires_at : Option DateTime
  pub created_at : DateTime
  pub updated_at : DateTime
  pub version : ℕ
  pub execution_plan_id : Option ℕ
  pub plan_step_id : Option ℕ
  pub parent_run_id : Option ℕ
  pub retry_of_run_id : Option ℕ
  pub run_role : AgentRunRole
  pub dependency_run_ids : List ℕ
  pub pending_status_changes : List AgentRunStatusChange

-- `_TRANSITIONS`
abbrev pub transitions : AgentRunStatus → List AgentRunStatus
transitions queued = preparing ∷ cancelled ∷ []
transitions preparing = running ∷ failed ∷ cancelled ∷ []
transitions running = validating ∷ failed ∷ timed_out ∷ cancelled ∷ []
transitions validating = completed ∷ needs_more_information ∷ failed ∷ cancelled ∷ []
transitions failed = queued ∷ dead_letter ∷ []
transitions timed_out = queued ∷ dead_letter ∷ []
transitions completed = []
transitions needs_more_information = []
transitions cancelled = []
transitions dead_letter = []

-- `_TERMINAL`
abbrev pub terminal : List AgentRunStatus
terminal = completed ∷ needs_more_information ∷ cancelled ∷ dead_letter ∷ []

-- `__post_init__`
unfoldable pub validated : AgentRun → Result AgentRun
validated r = do
  raise_if (ltb_ℤ r.attempt_number (pos 1) || ltb_ℤ r.max_attempts r.attempt_number)
      domain_validation
  raise_if (is_blank r.prompt_snapshot) domain_validation
  ok r

abbrev if_first : Bool → Option DateTime → DateTime → Option DateTime
if_first first old at = if first then some at else old

-- The change that transition_to records.
abbrev pub status_change :
    AgentRun → AgentRunStatus → DateTime → (change_id : ℕ) → AgentRunStatusChange
status_change r target changed_at change_id = record {
  id = change_id;
  agent_run_id = r.id;
  from_status = some r.status;
  to_status = target;
  changed_at = changed_at;
  correlation_id = r.correlation_id;
  attempt_number = r.attempt_number;
  failure_code = r.failure_code;
  failure_message = r.failure_message;
}

unfoldable pub transition_to :
    AgentRun → AgentRunStatus → Option DateTime → (clock change_id : ℕ) → Result AgentRun
transition_to r target now clock change_id = do
  raise_if (not (contains (transitions r.status) target)) invalid_state_transition
  let changed_at = now_or now clock
  require_aware changed_at
  let first = eq target running && is_none r.started_at
  let ending = contains terminal target || contains (failed ∷ timed_out ∷ []) target
  ok (record r {
    status = target;
    started_at = if_first first r.started_at changed_at;
    heartbeat_at = if_first first r.heartbeat_at changed_at;
    finished_at = if_first ending r.finished_at changed_at;
    updated_at = changed_at;
    version = r.version + 1;
    pending_status_changes =
        r.pending_status_changes ++ status_change r target changed_at change_id ∷ [];
  })

-- The run with no pending changes, and the changes that it had.
unfoldable pub drain_status_changes : AgentRun → AgentRun × List AgentRunStatusChange
drain_status_changes r = (record r { pending_status_changes = [] }, r.pending_status_changes)

unfoldable pub heartbeat : AgentRun → Option DateTime → ℕ → Result AgentRun
heartbeat r now clock = do
  raise_if (not (contains (preparing ∷ running ∷ []) r.status)) invalid_state_transition
  let changed_at = now_or now clock
  require_aware changed_at
  ok (record r { heartbeat_at = some changed_at; updated_at = changed_at; version = r.version + 1 })
