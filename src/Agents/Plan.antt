-- ===== src/Agents/Plan.antt =====
-- domain/agents.py: AgentPlanStep and AgentExecutionPlan, its validation and its waves of steps.
-- A dictionary by step id is the list of its values, of which no two have one id. A set of step ids
-- that the code only turns into steps again is the list of those steps: `sorted` fixes their order.
-- The `while` loop takes fuel: `none` means that it ran out, which the number of steps rules out.
pub mod Steps
pub mod Waves
pub mod Acyclic
pub mod Validation
mod Examples
use legal_workbench.Prelude.{
  ℕ, zero, suc, ◌+◌, ◌≡◌, refl, Bool, true, false, not, ◌&&◌, ◌||◌, Option, none, some, List, [],
  ◌∷◌, ◌++◌, Text, map, is_blank, is_empty, DateTime, Result, ok, err, ◌>>=◌, ◌>>◌, raise_if,
  domain_validation, any, all, keep, length, distinct, eq, if◌then◌else◌, contains, nat_eq, text_eq,
  text_lt, ltb, leb, sort_by,
}
use legal_workbench.Prelude.Int.{ℤ, pos, ltb_ℤ, int_eq}
use legal_workbench.Agents.Enums.{AgentPlanStepStatus, AgentExecutionPlanStatus}

pub record AgentPlanStep : Type 0 where
  pub id : ℕ
  pub execution_plan_id : ℕ
  pub step_id : Text
  pub sequence : ℤ
  pub agent_key : Text
  pub objective : Text
  pub depends_on : List Text
  pub context_requirements : List Text
  pub status : AgentPlanStepStatus
  pub latest_run_id : Option ℕ
  pub latest_valid_run_id : Option ℕ
  pub attempt_count : ℤ
  pub failure_code : Option Text
  pub failure_message : Option Text
  pub created_at : DateTime
  pub updated_at : DateTime
  pub version : ℕ

-- AgentPlanStep.__post_init__
unfoldable pub validated_step : AgentPlanStep → Result AgentPlanStep
validated_step s = do
  raise_if (is_blank s.step_id || is_blank s.agent_key) domain_validation
  raise_if (is_blank s.objective) domain_validation
  raise_if (ltb_ℤ s.sequence (pos 0) || ltb_ℤ s.attempt_count (pos 0)) domain_validation
  ok s

-- A date is a day number.
pub record AgentExecutionPlan : Type 0 where
  pub id : ℕ
  pub matter_id : ℕ
  pub work_item_id : Option ℕ
  pub objective : Text
  pub status : AgentExecutionPlanStatus
  pub task_types : List Text
  pub synthesis_strategy : Text
  pub missing_information : List Text
  pub requires_user_input : Bool
  pub correlation_id : Text
  pub idempotency_key : Text
  pub created_by : Text
  pub analysis_jurisdiction : Text
  pub analysis_effective_date : ℕ
  pub historical_as_of : Option ℕ
  pub steps : List AgentPlanStep
  pub planning_run_id : Option ℕ
  pub synthesis_run_id : Option ℕ
  pub created_at : DateTime
  pub updated_at : DateTime
  pub version : ℕ

-- AgentExecutionPlan.__post_init__
unfoldable pub validated_plan : AgentExecutionPlan → Result AgentExecutionPlan
validated_plan p = do
  raise_if (is_blank p.objective || is_blank p.synthesis_strategy) domain_validation
  raise_if (is_blank p.correlation_id || is_blank p.idempotency_key) domain_validation
  raise_if (is_blank p.analysis_jurisdiction) domain_validation
  ok p

abbrev pub ids : List AgentPlanStep → List Text
ids steps = map (λ s. s.step_id) steps

-- `by_id[step.step_id] = step`: a later step of the same id takes the place of the earlier.
unfoldable pub put_step : List AgentPlanStep → AgentPlanStep → List AgentPlanStep
put_step [] s = s ∷ []
put_step (t ∷ ts) s = if eq t.step_id s.step_id then s ∷ ts else t ∷ put_step ts s

unfoldable pub by_id : List AgentPlanStep → List AgentPlanStep → List AgentPlanStep
by_id table [] = table
by_id table (s ∷ ss) = by_id (put_step table s) ss

-- `set(step.depends_on) <= completed`
abbrev pub is_ready : List Text → AgentPlanStep → Bool
is_ready completed s = all (contains completed) s.depends_on

-- The order of the key `(step.sequence, step.step_id)`.
unfoldable pub comes_before : AgentPlanStep → AgentPlanStep → Bool
comes_before s t =
    ltb_ℤ s.sequence t.sequence || eq s.sequence t.sequence && text_lt s.step_id t.step_id

-- `remaining -= ready_ids`
abbrev pub without : List Text → List AgentPlanStep → List AgentPlanStep
without gone steps = keep (λ s. not (contains gone s.step_id)) steps

abbrev pub add_wave :
    List AgentPlanStep
    → Option (Result (List (List AgentPlanStep)))
    → Option (Result (List (List AgentPlanStep)))
add_wave wave none = none
add_wave wave (some (err e)) = some (err e)
add_wave wave (some (ok waves)) = some (ok (wave ∷ waves))

abbrev pub ready_steps : List Text → List AgentPlanStep → List AgentPlanStep
ready_steps completed remaining = sort_by comes_before (keep (is_ready completed) remaining)

-- The `while` loop of _topological_waves.
unfoldable pub waves :
    (fuel : ℕ) → List AgentPlanStep → List Text → Option (Result (List (List AgentPlanStep)))
waves fuel [] completed = some (ok [])
waves zero (s ∷ ss) completed = none
waves (suc fuel) (s ∷ ss) completed =
    let ready = ready_steps completed (s ∷ ss) in
    let rest =
      add_wave ready (waves fuel (without (ids ready) (s ∷ ss)) (completed ++ ids ready)) in
    if is_empty ready then some (err domain_validation) else rest

-- _topological_waves and ready_waves
unfoldable pub ready_waves : AgentExecutionPlan → Option (Result (List (List AgentPlanStep)))
ready_waves p = let table = by_id [] p.steps in waves (length table) table []

abbrev pub discard {ℓ} : {A : Type ℓ} → Result A → Result (Unit {0})
discard (ok a) = ok tt
discard (err e) = err e

abbrev pub discard? {ℓ} : {A : Type ℓ} → Option (Result A) → Option (Result (Unit {0}))
discard? none = none
discard? (some r) = some (discard r)

-- The checks of validate_steps before the waves.
unfoldable pub check_steps : AgentExecutionPlan → List Text → Result (Unit {0})
check_steps p registered = do
  raise_if (not (leb 1 (length p.steps) && leb (length p.steps) 4)) domain_validation
  raise_if (any (λ s. not (eq s.execution_plan_id p.id)) p.steps) domain_validation
  raise_if (not (distinct (ids p.steps))) domain_validation
  raise_if (any (λ s. not (contains registered s.agent_key)) p.steps) domain_validation
  raise_if (any (λ s. any (λ d. not (contains (ids p.steps) d)) s.depends_on) p.steps)
      domain_validation

abbrev pub after_checks :
    Result (Unit {0}) → Option (Result (Unit {0})) → Option (Result (Unit {0}))
after_checks (ok _) m = m
after_checks (err e) m = some (err e)

unfoldable pub validate_steps : AgentExecutionPlan → List Text → Option (Result (Unit {0}))
validate_steps p registered = after_checks (check_steps p registered) (discard? (ready_waves p))
