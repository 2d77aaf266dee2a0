-- ===== src/Agents/Plan/Examples.antt =====
-- A plan of three steps: the theorems about plans at a concrete input.
use legal_workbench.Prelude.{
  ℕ, ◌≡◌, ◌≢◌, ◌≤◌, refl, false, not, none, some, List, [], ◌∷◌, Text, text, utc_now, ok, err,
  arith, if◌then◌else◌, eq, text_eq, Error, any, contains, length, sort_by, insert_by,
}
use mathlib.Core.List.{Perm, flatten}
use legal_workbench.Prelude.Int.{pos}
use legal_workbench.Agents.Enums.{AgentPlanStepStatus, AgentExecutionPlanStatus}
use legal_workbench.Agents.Plan.{
  AgentPlanStep, AgentExecutionPlan, by_id, put_step, waves, ready_waves, check_steps,
  validate_steps, comes_before,
}
use legal_workbench.Agents.Plan.Waves.{IsOrdered, ready_waves-total}
use legal_workbench.Agents.Plan.Acyclic.{IsRanked, ready_waves_of_ranked}
use legal_workbench.Agents.Plan.Validation.{validate_steps-IsOrdered, validate_steps_accepts}

abbrev step : Text → List Text → AgentPlanStep
step name deps = record {
  id = 1;
  execution_plan_id = 9;
  step_id = name;
  sequence = pos 0;
  agent_key = text "contract";
  objective = text "o";
  depends_on = deps;
  context_requirements = [];
  status = AgentPlanStepStatus.pending;
  latest_run_id = none;
  latest_valid_run_id = none;
  attempt_count = pos 0;
  failure_code = none;
  failure_message = none;
  created_at = utc_now 0;
  updated_at = utc_now 0;
  version = 1;
}

abbrev read : AgentPlanStep
read = step (text "a") []

abbrev check : AgentPlanStep
check = step (text "b") (text "a" ∷ [])

abbrev report : AgentPlanStep
report = step (text "c") (text "a" ∷ text "b" ∷ [])

abbrev plan : AgentExecutionPlan
plan = record {
  id = 9;
  matter_id = 7;
  work_item_id = none;
  objective = text "o";
  status = AgentExecutionPlanStatus.planned;
  task_types = [];
  synthesis_strategy = text "s";
  missing_information = [];
  requires_user_input = false;
  correlation_id = text "c";
  idempotency_key = text "k";
  created_by = text "legal";
  analysis_jurisdiction = text "CN";
  analysis_effective_date = 0;
  historical_as_of = none;
  steps = report ∷ read ∷ check ∷ [];
  planning_run_id = none;
  synthesis_run_id = none;
  created_at = utc_now 0;
  updated_at = utc_now 0;
  version = 1;
}

abbrev in_order : List (List AgentPlanStep)
in_order = (read ∷ []) ∷ (check ∷ []) ∷ (report ∷ []) ∷ []

has_waves : ready_waves plan ≡ some (ok in_order)
unfolding ready_waves waves by_id put_step sort_by insert_by comes_before
has_waves = refl

abbrev loop : AgentExecutionPlan
loop = record plan { steps = step (text "a") (text "b" ∷ []) ∷ check ∷ [] }

has_cycle : ready_waves loop ≡ some (err Error.domain_validation)
unfolding ready_waves waves by_id put_step sort_by insert_by comes_before
has_cycle = refl

abbrev registered : List Text
registered = text "contract" ∷ []

is_checked : check_steps plan registered ≡ ok tt
unfolding check_steps
is_checked = refl

is_valid : validate_steps plan registered ≡ some (ok tt)
unfolding validate_steps check_steps ready_waves waves by_id put_step sort_by insert_by comes_before
is_valid = refl

abbrev rank : Text → ℕ
rank t = if eq t (text "a") then 0 else if eq t (text "b") then 1 else 2

ready_waves-total_example : ready_waves loop ≢ none
ready_waves-total_example = ready_waves-total loop

steps-IsRanked : IsRanked rank [] plan.steps plan.steps
steps-IsRanked = ground arith

plan-IsRanked : IsRanked rank [] (by_id [] plan.steps) (by_id [] plan.steps)
unfolding by_id put_step
plan-IsRanked = steps-IsRanked

ready_waves_of_ranked_example : (ws : List (List AgentPlanStep)) × (ready_waves plan ≡ some (ok ws))
ready_waves_of_ranked_example = ready_waves_of_ranked plan rank plan-IsRanked

validate_steps-IsOrdered_example :
    (1 ≤ length plan.steps)
    × (length plan.steps ≤ 4)
    × (any (λ s. not (contains registered s.agent_key)) plan.steps ≡ false)
    × ((ws : List (List AgentPlanStep)) × (ready_waves plan ≡ some (ok ws))
        × Perm (flatten ws) plan.steps
        × IsOrdered [] ws)
validate_steps-IsOrdered_example = validate_steps-IsOrdered plan registered is_valid

validate_steps_accepts_example : validate_steps plan registered ≡ some (ok tt)
validate_steps_accepts_example =
    validate_steps_accepts plan registered rank is_checked steps-IsRanked
