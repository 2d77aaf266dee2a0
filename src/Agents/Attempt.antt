-- ===== src/Agents/Attempt.antt =====
-- domain/agents.py: AgentAttemptLease and AgentRunAttempt.
-- `clock` is what utc_now reads where the caller passes no time, `id` is what uuid4 returns.
pub mod Fencing
mod Examples
use legal_workbench.Prelude.{
  ℕ, ◌+◌, ◌≡◌, refl, Bool, true, false, not, ◌&&◌, ◌||◌, Option, none, some, List, [], ◌∷◌, Text,
  text, is_blank, DateTime, now_or, require_aware, dt_le, Result, ok, err, ◌>>=◌, ◌>>◌, raise_if,
  domain_validation, stale_agent_attempt, eq, ◌==◌, if◌then◌else◌, contains, nat_eq, require_aware?,
}
use legal_workbench.Prelude.Int.{ℤ, pos, ltb_ℤ, int_eq}
use legal_workbench.Agents.Enums.{
  AgentAttemptStatus, running, completed, failed, timed_out, cancelled, expired, attempt_status_eq,
}

pub record AgentAttemptLease : Type 0 where
  pub run_id : ℕ
  pub attempt_number : ℤ
  pub lease_token : ℕ

pub record AgentRunAttempt : Type 0 where
  pub id : ℕ
  pub run_id : ℕ
  pub attempt_number : ℤ
  pub lease_token : ℕ
  pub worker_id : Text
  pub status : AgentAttemptStatus
  pub lease_expires_at : DateTime
  pub started_at : DateTime
  pub heartbeat_at : DateTime
  pub finished_at : Option DateTime
  pub failure_code : Option Text
  pub failure_message : Option Text

-- `__post_init__`
unfoldable pub validated : AgentRunAttempt → Result AgentRunAttempt
validated a = do
  raise_if (ltb_ℤ a.attempt_number (pos 1)) domain_validation
  raise_if (is_blank a.worker_id) domain_validation
  require_aware a.lease_expires_at
  require_aware a.started_at
  require_aware a.heartbeat_at
  require_aware? a.finished_at
  ok a

unfoldable pub start :
    (id : ℕ)
    → AgentAttemptLease
    → Text
    → DateTime
    → Option DateTime
    → (clock : ℕ) → Result AgentRunAttempt
unfolding validated
start id l worker_id lease_expires_at now clock = validated (record {
  id = id;
  run_id = l.run_id;
  attempt_number = l.attempt_number;
  lease_token = l.lease_token;
  worker_id = worker_id;
  status = running;
  lease_expires_at = lease_expires_at;
  started_at = now_or now clock;
  heartbeat_at = now_or now clock;
  finished_at = none;
  failure_code = none;
  failure_message = none;
})

-- The property `lease`.
abbrev pub lease : AgentRunAttempt → AgentAttemptLease
lease a = record {
  run_id = a.run_id;
  attempt_number = a.attempt_number;
  lease_token = a.lease_token;
}

abbrev pub lease_beq : AgentAttemptLease → AgentAttemptLease → Bool
lease_beq l m =
    eq l.run_id m.run_id && eq l.attempt_number m.attempt_number && eq l.lease_token m.lease_token

unfoldable pub ensure_current :
    AgentRunAttempt → AgentAttemptLease → Option DateTime → ℕ → Result (Unit {0})
ensure_current a l active_at clock = do
  let checked_at = now_or active_at clock
  require_aware checked_at
  raise_if (not (eq a.status running)) stale_agent_attempt
  raise_if (not (lease_beq l (lease a))) stale_agent_attempt
  over ← dt_le a.lease_expires_at checked_at
  raise_if over stale_agent_attempt

unfoldable pub complete :
    AgentRunAttempt → AgentAttemptLease → Option DateTime → ℕ → Result AgentRunAttempt
unfolding ensure_current
complete a l now clock = do
  let finished_at = now_or now clock
  require_aware finished_at
  ensure_current a l (some finished_at) clock
  ok (record a {
    status = completed;
    finished_at = some finished_at;
    lease_expires_at = finished_at;
  })

unfoldable pub heartbeat :
    AgentRunAttempt → AgentAttemptLease → DateTime → DateTime → ℕ → Result AgentRunAttempt
unfolding ensure_current
heartbeat a l heartbeat_at lease_expires_at clock = do
  require_aware heartbeat_at
  require_aware lease_expires_at
  ensure_current a l (some heartbeat_at) clock
  over ← dt_le lease_expires_at heartbeat_at
  raise_if over domain_validation
  ok (record a { heartbeat_at = heartbeat_at; lease_expires_at = lease_expires_at })

unfoldable pub fail :
    AgentRunAttempt
    → AgentAttemptLease
    → AgentAttemptStatus
    → (code message : Text) → Option DateTime
    → ℕ
    → Result AgentRunAttempt
unfolding ensure_current
fail a l status code message now clock = do
  raise_if (not (contains (failed ∷ timed_out ∷ cancelled ∷ []) status)) domain_validation
  let finished_at = now_or now clock
  require_aware finished_at
  ensure_current a l (some finished_at) clock
  ok (record a {
    status = status;
    finished_at = some finished_at;
    lease_expires_at = finished_at;
    failure_code = some code;
    failure_message = some message;
  })

unfoldable pub expire : AgentRunAttempt → Option DateTime → ℕ → Result AgentRunAttempt
expire a now clock = do
  raise_if (not (eq a.status running)) stale_agent_attempt
  let finished_at = now_or now clock
  require_aware finished_at
  due ← dt_le a.lease_expires_at finished_at
  raise_if (not due) stale_agent_attempt
  ok (record a {
    status = expired;
    finished_at = some finished_at;
    lease_expires_at = finished_at;
    failure_code = some (text "AGENT_LEASE_EXPIRED");
    failure_message = some (text "Agent worker heartbeat lease expired.");
  })
