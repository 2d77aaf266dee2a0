-- ===== src/AttemptStore.antt =====
-- infrastructure/repositories.py: SqlAlchemyAgentRunAttemptRepository, the table of attempts with its
-- compare-and-set updates. A row has the fields of AgentRunAttempt; times are of timezone-aware columns.
-- `database_now` is what the database's now() returns.
pub mod Service
pub mod Equivalence
pub mod Histories
pub mod Keys
pub mod Starts
mod Examples
use legal_workbench.Prelude.{
  ℕ, Bool, not, ◌&&◌, ◌||◌, some, none, List, [], ◌∷◌, ◌++◌, Text, text, DateTime, Result, ok, err,
  ◌>>◌, raise_if, value_error, external_error, stale_agent_attempt, eq, nat_eq, leb, ltb,
  if◌then◌else◌, contains, any,
}
use legal_workbench.Prelude.Int.{ℤ, int_eq}
use legal_workbench.Agents.Enums.{
  AgentAttemptStatus, running, completed, failed, timed_out, cancelled, expired, attempt_status_eq,
}
use legal_workbench.Agents.Attempt.{AgentAttemptLease, AgentRunAttempt}

-- The rows that a statement with `update` and `where` leaves.
abbrev pub update_where {ℓ} : {A : Type ℓ} → (A → Bool) → (A → A) → List A → List A
update_where test f [] = []
update_where test f (x ∷ xs) = (if test x then f x else x) ∷ update_where test f xs

-- `_active_lease_predicates`
unfoldable pub active_lease_predicates :
    AgentAttemptLease → (active_at database_now : DateTime) → AgentRunAttempt → Bool
active_lease_predicates l active_at database_now a =
    eq l.run_id a.run_id
    && eq l.attempt_number a.attempt_number
    && eq l.lease_token a.lease_token
    && eq a.status running
    && ltb active_at.ticks a.lease_expires_at.ticks
    && ltb database_now.ticks a.lease_expires_at.ticks

-- An update that raises if it returns no row.
abbrev pub update_active :
    (AgentRunAttempt → Bool)
    → (AgentRunAttempt → AgentRunAttempt)
    → List AgentRunAttempt
    → Result (List AgentRunAttempt)
update_active test f rows =
    if any test rows then ok (update_where test f rows) else err stale_agent_attempt

-- Two rows of a run with one number, or two rows with one token, violate a constraint.
abbrev pub conflicts : AgentRunAttempt → AgentRunAttempt → Bool
conflicts a b =
    (eq a.run_id b.run_id && eq a.attempt_number b.attempt_number) || eq a.lease_token b.lease_token

unfoldable pub add : AgentRunAttempt → List AgentRunAttempt → Result (List AgentRunAttempt)
add a rows = do raise_if (any (conflicts a) rows) external_error; ok (rows ++ a ∷ [])

abbrev pub beat_row : (heartbeat_at lease_expires_at : DateTime) → AgentRunAttempt → AgentRunAttempt
beat_row at until a = record a { heartbeat_at = at; lease_expires_at = until }

unfoldable pub heartbeat :
    AgentAttemptLease
    → (heartbeat_at lease_expires_at database_now : DateTime) → List AgentRunAttempt
    → Result (List AgentRunAttempt)
unfolding active_lease_predicates
heartbeat l at until database_now rows =
    update_active (active_lease_predicates l at database_now) (beat_row at until) rows

abbrev pub completed_row : (finished_at : DateTime) → AgentRunAttempt → AgentRunAttempt
completed_row at a = record a {
  status = completed;
  finished_at = some at;
  lease_expires_at = at;
  failure_code = none;
  failure_message = none;
}

unfoldable pub complete :
    AgentAttemptLease
    → (finished_at database_now : DateTime) → List AgentRunAttempt
    → Result (List AgentRunAttempt)
unfolding active_lease_predicates
complete l at database_now rows =
    update_active (active_lease_predicates l at database_now) (completed_row at) rows

abbrev pub failed_row :
    AgentAttemptStatus
    → (code message : Text) → (finished_at : DateTime) → AgentRunAttempt
    → AgentRunAttempt
failed_row status code message at a = record a {
  status = status;
  finished_at = some at;
  lease_expires_at = at;
  failure_code = some code;
  failure_message = some message;
}

unfoldable pub fail :
    AgentAttemptLease
    → AgentAttemptStatus
    → (code message : Text) → (finished_at database_now : DateTime) → List AgentRunAttempt
    → Result (List AgentRunAttempt)
unfolding active_lease_predicates
fail l status code message at database_now rows = do
  raise_if (not (contains (failed ∷ timed_out ∷ cancelled ∷ []) status)) value_error
  update_active (active_lease_predicates l at database_now) (failed_row status code message at) rows

abbrev pub is_expired :
    (run_id : ℕ) → (attempt_number : ℤ) → (finished_at : DateTime) → AgentRunAttempt → Bool
is_expired run_id number at a =
    eq a.run_id run_id
    && eq a.attempt_number number
    && eq a.status running
    && leb a.lease_expires_at.ticks at.ticks

abbrev pub expired_row : (finished_at : DateTime) → AgentRunAttempt → AgentRunAttempt
expired_row at a =
    failed_row expired (text "AGENT_LEASE_EXPIRED") (text "Agent worker heartbeat lease expired.")
      at a

unfoldable pub expire_current :
    (run_id : ℕ)
    → (attempt_number : ℤ) → (finished_at : DateTime) → List AgentRunAttempt
    → List AgentRunAttempt × Bool
expire_current run_id number at rows = (
  update_where (is_expired run_id number at) (expired_row at) rows,
  any (is_expired run_id number at) rows,
)
