-- ===== src/AttemptStore/Service.antt =====
-- application/agent_attempts.py: AgentAttemptService and AgentExecutionLeaseService, inside the
-- transaction of the caller. Each time that a call reads from its clock is an argument.
use legal_workbench.Prelude.{
  ℕ, ◌+◌, Bool, none, some, List, Text, DateTime, Result, ok, ◌>>=◌, leb, if◌then◌else◌,
  add_seconds,
}
use legal_workbench.Prelude.Int.{ℤ}
use legal_workbench.Agents.Enums.{AgentAttemptStatus, AgentRunStatus}
use legal_workbench.Agents.Attempt.{AgentAttemptLease, AgentRunAttempt, lease}
use legal_workbench.Agents.Run.{AgentRun, transition_to}
use legal_workbench.Agents.Attempt
use legal_workbench.Agents.Run
use legal_workbench.AttemptStore

-- The ids of a new attempt: its own and its token.
pub record AttemptIds : Type 0 where
  pub id : ℕ
  pub lease_token : ℕ

unfoldable pub claim :
    (lease_seconds : ℕ)
    → (run_id : ℕ) → (attempt_number : ℤ) → (worker_id : Text) → AttemptIds
    → (now : DateTime) → List AgentRunAttempt
    → Result (List AgentRunAttempt × AgentAttemptLease)
unfolding Attempt.start AttemptStore.add
claim lease_seconds run_id number worker_id ids now rows = do
  attempt ←
      Attempt.start ids.id
        (record { run_id = run_id; attempt_number = number; lease_token = ids.lease_token })
        worker_id (add_seconds now lease_seconds) (some now) 0
  rows' ← AttemptStore.add attempt rows
  ok (rows', lease attempt)

unfoldable pub heartbeat :
    (lease_seconds : ℕ)
    → AgentAttemptLease
    → (now database_now : DateTime) → List AgentRunAttempt
    → Result (List AgentRunAttempt × DateTime)
unfolding AttemptStore.heartbeat
heartbeat lease_seconds l now database_now rows = do
  let until = add_seconds now lease_seconds
  rows' ← AttemptStore.heartbeat l now until database_now rows
  ok (rows', until)

-- The clock readings of AgentExecutionLeaseService.start, and what its parts make new.
pub record StartInput : Type 0 where
  pub worker_id : Text
  pub ids : AttemptIds
  pub preparing_at : DateTime
  pub claimed_at : DateTime
  pub read_at : DateTime
  pub first_change : ℕ
  pub second_change : ℕ

-- `running_at`, a microsecond after `preparing_at` at the least.
abbrev pub running_at : StartInput → DateTime
running_at i =
    if leb i.read_at.ticks i.preparing_at.ticks
    then record i.preparing_at { ticks = i.preparing_at.ticks + 1 }
    else i.read_at

-- The run with its worker and the end of its lease.
abbrev pub leased : (lease_seconds : ℕ) → StartInput → AgentRun → AgentRun
leased lease_seconds i run = record run {
  worker_id = some i.worker_id;
  lease_expires_at = some (add_seconds i.preparing_at lease_seconds);
}

unfoldable pub start_run :
    (lease_seconds : ℕ)
    → StartInput
    → AgentRun
    → List AgentRunAttempt
    → Result (AgentRun × (List AgentRunAttempt × AgentAttemptLease))
unfolding claim transition_to
start_run lease_seconds i run rows = do
  preparing ← transition_to run AgentRunStatus.preparing (some i.preparing_at) 0 i.first_change
  claimed ← claim lease_seconds run.id run.attempt_number i.worker_id i.ids i.claimed_at rows
  started ←
      transition_to (leased lease_seconds i preparing) AgentRunStatus.running (some (running_at i))
        0 i.second_change
  ok (started, claimed)

unfoldable pub heartbeat_run :
    (lease_seconds : ℕ)
    → AgentAttemptLease
    → (now database_now run_now : DateTime) → AgentRun
    → List AgentRunAttempt
    → Result (AgentRun × List AgentRunAttempt)
unfolding heartbeat Run.heartbeat
heartbeat_run lease_seconds l now database_now run_now run rows = do
  beaten ← heartbeat lease_seconds l now database_now rows
  run' ← Run.heartbeat (record run { lease_expires_at = some beaten.1 }) (some run_now) 0
  ok (run', beaten.0)

abbrev pub released : AgentRun → AgentRun
released run = record run { lease_expires_at = none }

unfoldable pub complete_run :
    AgentAttemptLease
    → (now database_now : DateTime) → AgentRun
    → List AgentRunAttempt
    → Result (AgentRun × List AgentRunAttempt)
unfolding AttemptStore.complete
complete_run l now database_now run rows = do
  rows' ← AttemptStore.complete l now database_now rows
  ok (released run, rows')

unfoldable pub fail_run :
    AgentAttemptLease
    → AgentAttemptStatus
    → (code message : Text) → (now database_now : DateTime) → AgentRun
    → List AgentRunAttempt
    → Result (AgentRun × List AgentRunAttempt)
unfolding AttemptStore.fail
fail_run l status code message now database_now run rows = do
  rows' ← AttemptStore.fail l status code message now database_now rows
  ok (released run, rows')

unfoldable pub expire_run :
    (now : DateTime) → AgentRun → List AgentRunAttempt → (AgentRun × List AgentRunAttempt) × Bool
unfolding AttemptStore.expire_current
expire_run now run rows =
    let (rows', gone) = AttemptStore.expire_current run.id run.attempt_number now rows in
    (((if gone then released run else run), rows'), gone)
