-- ===== src/Agents/Attempt/Fencing.antt =====
-- A stale worker cannot change an attempt.
use legal_workbench.Prelude.{
  ℕ, ◌≡◌, ◌≢◌, ◌<◌, ◌≤◌, refl, true, not, Option, none, some, List, [], ◌∷◌, Text, DateTime, Result,
  ok, err, Result-cases, inl, inr, arith, eq, is_some, contains, type_error, now_or, after,
}
use legal_workbench.Prelude.Int.{int_beq_iff}
use legal_workbench.Agents.Enums.{
  AgentAttemptStatus, running, completed, expired, attempt_status_eq,
}
use legal_workbench.Agents.Attempt.{
  AgentAttemptLease, AgentRunAttempt, start, lease, lease_beq, complete, heartbeat, fail, expire,
}

-- An end time is the end of the lease.
abbrev pub EndsAt : Option DateTime → DateTime → Type 0
EndsAt none until = Unit
EndsAt (some d) until = until ≡ d

-- What holds of an attempt between two calls: its times are timezone-aware, and it has an end time
-- exactly when it no longer runs, at which its lease ends too.
pub record IsSound (a : AgentRunAttempt) : Type 0 where
  pub expiry_aware : a.lease_expires_at.aware ≡ true
  pub start_aware : a.started_at.aware ≡ true
  pub heartbeat_aware : a.heartbeat_at.aware ≡ true
  pub finished : is_some a.finished_at ≡ not (eq a.status running)
  pub released : EndsAt a.finished_at a.lease_expires_at
  pub explained : is_some a.failure_code ≡ not (contains (running ∷ completed ∷ []) a.status)

-- A call by the holder of a lease, or by the recovery.
pub data Call : Type 0 where
  completing : AgentAttemptLease → Option DateTime → (clock : ℕ) → Call
  beating : AgentAttemptLease → DateTime → DateTime → (clock : ℕ) → Call
  failing :
      AgentAttemptLease → AgentAttemptStatus → Text → Text → Option DateTime → (clock : ℕ) → Call
  expiring : Option DateTime → (clock : ℕ) → Call

unfoldable pub perform : AgentRunAttempt → Call → Result AgentRunAttempt
perform a (completing l now clock) = complete a l now clock
perform a (beating l at until clock) = heartbeat a l at until clock
perform a (failing l status code message now clock) = fail a l status code message now clock
perform a (expiring now clock) = expire a now clock

unfoldable pub run : AgentRunAttempt → List Call → AgentRunAttempt
run a [] = a
run a (c ∷ cs) = run (after a (perform a c)) cs

start-IsSound :
    (id : ℕ) (l : AgentAttemptLease) (worker : Text) (until : DateTime) (now : Option DateTime)
    (clock : ℕ) {a : AgentRunAttempt}
    → start id l worker until now clock ≡ ok a
    → IsSound a
unfolding start
start-IsSound id l worker until now clock h = ground arith

perform-IsSound :
    (a : AgentRunAttempt) (c : Call) {a' : AgentRunAttempt}
    → IsSound a
    → perform a c ≡ ok a'
    → IsSound a'
unfolding perform complete heartbeat fail expire
perform-IsSound a (completing l now clock) s h = ground arith
perform-IsSound a (beating l at until clock) s h = ground arith
perform-IsSound a (failing l status code message now clock) s h = ground arith
perform-IsSound a (expiring now clock) s h = ground arith

after-IsSound : (a : AgentRunAttempt) (c : Call) → IsSound a → IsSound (after a (perform a c))
after-IsSound a c s = elim (Result-cases (perform a c)) [
  | inl (a', e) ↦ rw e (perform-IsSound a c s e)
  | inr (x, e) ↦ rw e s
]

run-IsSound : (a : AgentRunAttempt) (cs : List Call) → IsSound a → IsSound (run a cs)
unfolding run
run-IsSound a [] s = s
run-IsSound a (c ∷ cs) s = run-IsSound (after a (perform a c)) cs (after-IsSound a c s)

-- A started attempt keeps, after any calls of workers and of the recovery, timezone-aware times, an
-- end time exactly if it no longer runs, its lease ended at that time, and a failure code exactly if
-- it neither runs nor completed.
pub attempt-IsSound :
    (id : ℕ) (l : AgentAttemptLease) (worker : Text) (until : DateTime) (now : Option DateTime)
    (clock : ℕ) (cs : List Call) {a : AgentRunAttempt}
    → start id l worker until now clock ≡ ok a
    → IsSound (run a cs)
attempt-IsSound id l worker until now clock cs h =
    run-IsSound _ cs (start-IsSound id l worker until now clock h)

-- No call compares a timezone-aware time with a naive one.
pub perform-ne-type_error :
    (a : AgentRunAttempt) (c : Call) → IsSound a → perform a c ≢ err type_error
unfolding perform complete heartbeat fail expire
perform-ne-type_error a (completing l now clock) s = ground arith
perform-ne-type_error a (beating l at until clock) s = ground arith
perform-ne-type_error a (failing l status code message now clock) s = ground arith
perform-ne-type_error a (expiring now clock) s = ground arith

-- Who may change an attempt: the holder of its lease before the lease ends, or the recovery after.
abbrev pub IsEntitled : AgentRunAttempt → Call → Type 0
IsEntitled a (completing l now clock) =
    (l ≡ lease a) × ((now_or now clock).ticks < a.lease_expires_at.ticks)
IsEntitled a (beating l at until clock) = (l ≡ lease a) × (at.ticks < a.lease_expires_at.ticks)
IsEntitled a (failing l status code message now clock) =
    (l ≡ lease a) × ((now_or now clock).ticks < a.lease_expires_at.ticks)
IsEntitled a (expiring now clock) = a.lease_expires_at.ticks ≤ (now_or now clock).ticks

lease_beq-eq : (l m : AgentAttemptLease) → lease_beq l m ≡ true → l ≡ m
lease_beq-eq l m h = ground (arith, int_beq_iff l.attempt_number m.attempt_number)

-- A call changes an attempt only while it runs, and only for the worker that holds its current
-- lease and comes before the lease ends, or for the recovery once the lease has ended.
pub perform-IsEntitled :
    (a : AgentRunAttempt) (c : Call) {a' : AgentRunAttempt}
    → perform a c ≡ ok a'
    → (a.status ≡ running) × IsEntitled a c
unfolding perform complete heartbeat fail expire
perform-IsEntitled a (completing l now clock) h = ground (arith, lease_beq-eq l (lease a))
perform-IsEntitled a (beating l at until clock) h = ground (arith, lease_beq-eq l (lease a))
perform-IsEntitled a (failing l status code message now clock) h =
    ground (arith, lease_beq-eq l (lease a))
perform-IsEntitled a (expiring now clock) h = ground arith

after_settled : (a : AgentRunAttempt) (c : Call) → a.status ≢ running → after a (perform a c) ≡ a
after_settled a c n = elim (Result-cases (perform a c)) [
  | inl (a', e) ↦ absurd (n (perform-IsEntitled a c e).0)
  | inr (x, e) ↦ rw e
]

-- An attempt that has completed, failed or expired is never changed again, by any calls.
pub run_settled : (a : AgentRunAttempt) (cs : List Call) → a.status ≢ running → run a cs ≡ a
unfolding run
run_settled a [] n = refl
run_settled a (c ∷ cs) n = rw (after_settled a c n) (run_settled a cs n)

expire-expired :
    (a : AgentRunAttempt) (now : Option DateTime) (clock : ℕ) {a' : AgentRunAttempt}
    → expire a now clock ≡ ok a'
    → a'.status ≡ expired
unfolding expire
expire-expired a now clock h = ground arith

-- Once the recovery has expired an attempt, whatever its worker still calls leaves it expired.
pub expired_is_final :
    (a : AgentRunAttempt) (now : Option DateTime) (clock : ℕ) (cs : List Call)
    {a' : AgentRunAttempt}
    → expire a now clock ≡ ok a'
    → (run a' cs ≡ a') × (a'.status ≡ expired)
expired_is_final a now clock cs h =
    let e = expire-expired a now clock h in (run_settled _ cs (λ r. cc), e)
