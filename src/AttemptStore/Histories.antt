-- ===== src/AttemptStore/Histories.antt =====
-- Histories of the table of attempts: claims of new attempts, and requests about those that are stored.
use legal_workbench.Prelude.{
  ℕ, ◌≡◌, ◌≤◌, refl, sym, ap, ◌∙◌, true, false, some, List, [], ◌∷◌, ◌++◌, map, Text, DateTime,
  Result, ok, err, after, succeeds, nat_eq, if◌then◌else◌, contains, any, All, arith, Bool-cases,
  Result-cases, inl, inr, add_seconds, ok-injective, ok-ne-err,
}
use legal_workbench.Prelude.Int.{ℤ, int_eq}
use legal_workbench.Agents.Enums.{
  AgentAttemptStatus, failed, timed_out, cancelled, attempt_status_eq,
}
use legal_workbench.Agents.Attempt.{
  AgentAttemptLease, AgentRunAttempt, lease, ensure_current, validated,
}
use legal_workbench.Agents.Attempt
use legal_workbench.AttemptStore.{conflicts}
use legal_workbench.AttemptStore
use legal_workbench.AttemptStore.Service.{AttemptIds}
use legal_workbench.AttemptStore.Service
use legal_workbench.AttemptStore.Equivalence.{
  IsStored, Request, beating, completing, failing, expiring, request_time, perform, reference,
  perform-eq-reference, on_each, is_attempt, complete_at, heartbeat_at, fail_at,
}

map-All :
    (P : AgentRunAttempt → Type 0) (f : AgentRunAttempt → AgentRunAttempt)
    → ((a : AgentRunAttempt) → P a → P (f a))
    → (rows : List AgentRunAttempt) → All P rows
    → All P (map f rows)
map-All P f h [] p = tt
map-All P f h (a ∷ rows) (q, p) = (h a q, map-All P f h rows p)

append-All :
    (P : AgentRunAttempt → Type 0) (rows : List AgentRunAttempt) (a : AgentRunAttempt)
    → All P rows
    → P a
    → All P (rows ++ a ∷ [])
append-All P [] a p q = (q, tt)
append-All P (b ∷ rows) a (r, p) q = (r, append-All P rows a p q)

complete-IsStored :
    (l : AgentAttemptLease) (at database_now : DateTime) (clock : ℕ) (a : AgentRunAttempt)
    → IsStored a
    → IsStored (after a (complete_at l at database_now clock a))
unfolding Attempt.complete ensure_current
complete-IsStored l at database_now clock a s = ground arith

heartbeat-IsStored :
    (l : AgentAttemptLease) (at until database_now : DateTime) (clock : ℕ) (a : AgentRunAttempt)
    → IsStored a
    → IsStored (after a (heartbeat_at l at until database_now clock a))
unfolding Attempt.heartbeat ensure_current
heartbeat-IsStored l at until database_now clock a s = ground arith

fail-IsStored :
    (l : AgentAttemptLease) (status : AgentAttemptStatus) (code message : Text)
    (at database_now : DateTime) (clock : ℕ) (a : AgentRunAttempt)
    → IsStored a
    → IsStored (after a (fail_at l status code message at database_now clock a))
unfolding Attempt.fail ensure_current
fail-IsStored l status code message at database_now clock a s = ground arith

expire-IsStored :
    (at : DateTime) (clock : ℕ) (a : AgentRunAttempt)
    → IsStored a
    → IsStored (after a (Attempt.expire a (some at) clock))
unfolding Attempt.expire
expire-IsStored at clock a s = ground arith

start-IsStored :
    (id : ℕ) (l : AgentAttemptLease) (worker : Text) (until now : DateTime) {a : AgentRunAttempt}
    → Attempt.start id l worker until (some now) 0 ≡ ok a
    → IsStored a
unfolding Attempt.start
start-IsStored id l worker until now h = ground arith

on_each-IsStored :
    (method : AgentRunAttempt → Result AgentRunAttempt) (rows : List AgentRunAttempt)
    → ((a : AgentRunAttempt) → IsStored a → IsStored (after a (method a)))
    → All IsStored rows
    → All IsStored (after rows (on_each method rows))
on_each-IsStored method rows h p = elim (Bool-cases (any (λ a. succeeds (method a)) rows)) [
  | inl e ↦ rw e (map-All IsStored (λ a. after a (method a)) h rows p)
  | inr e ↦ rw e p
]

reference-IsStored :
    (lease_seconds clock : ℕ) (database_now : DateTime) (r : Request) (rows : List AgentRunAttempt)
    → All IsStored rows
    → All IsStored (after rows (reference lease_seconds clock database_now r rows))
reference-IsStored lease_seconds clock database_now (beating l now) rows p =
    on_each-IsStored (λ a. heartbeat_at l now (add_seconds now lease_seconds) database_now clock a)
      rows (heartbeat-IsStored l now (add_seconds now lease_seconds) database_now clock) p
reference-IsStored lease_seconds clock database_now (completing l now) rows p =
    on_each-IsStored (λ a. complete_at l now database_now clock a) rows
      (complete-IsStored l now database_now clock) p
reference-IsStored lease_seconds clock database_now (failing l status code message now) rows p =
    elim (Bool-cases (contains (failed ∷ timed_out ∷ cancelled ∷ []) status)) [
      | inr e ↦ rw e p
      | inl e ↦ rw e (
          on_each-IsStored (λ a. fail_at l status code message now database_now clock a) rows
            (fail-IsStored l status code message now database_now clock) p)
    ]
reference-IsStored lease_seconds clock database_now (expiring run_id number now) rows p =
    map-All IsStored
      (λ a. if is_attempt run_id number a then after a (Attempt.expire a (some now) clock) else a)
      (λ a s. elim (Bool-cases (is_attempt run_id number a)) [
        | inl e ↦ rw e (expire-IsStored now clock a s)
        | inr e ↦ rw e s
      ])
      rows p

-- A transaction: a claim of a new attempt, or a request with the time of the database.
pub data Call : Type 0 where
  claiming :
      (run_id : ℕ)
      → (attempt_number : ℤ) → (worker_id : Text) → AttemptIds
      → (now : DateTime) → Call
  requesting : Request → (database_now : DateTime) → Call

-- The times of a request, the worker's and the database's, are timezone-aware.
abbrev pub IsTimely : Call → Type 0
IsTimely (claiming run_id number worker ids now) = Unit
IsTimely (requesting r database_now) = ((request_time r).aware ≡ true) × (database_now.aware ≡ true)

abbrev pub claimed :
    List AgentRunAttempt → Result (List AgentRunAttempt × AgentAttemptLease) → List AgentRunAttempt
claimed rows (ok (rows', l)) = rows'
claimed rows (err e) = rows

abbrev pub step : (lease_seconds : ℕ) → Call → List AgentRunAttempt → List AgentRunAttempt
step lease_seconds (claiming run_id number worker ids now) rows =
    claimed rows (Service.claim lease_seconds run_id number worker ids now rows)
step lease_seconds (requesting r database_now) rows =
    after rows (perform lease_seconds database_now r rows)

abbrev pub run : (lease_seconds : ℕ) → List Call → List AgentRunAttempt → List AgentRunAttempt
run lease_seconds [] rows = rows
run lease_seconds (c ∷ cs) rows = run lease_seconds cs (step lease_seconds c rows)

-- The same history with the methods of AgentRunAttempt, and the check at the database's time, in place
-- of the statements.
abbrev pub reference_step :
    (lease_seconds clock : ℕ) → Call → List AgentRunAttempt → List AgentRunAttempt
reference_step lease_seconds clock (claiming run_id number worker ids now) rows =
    step lease_seconds (claiming run_id number worker ids now) rows
reference_step lease_seconds clock (requesting r database_now) rows =
    after rows (reference lease_seconds clock database_now r rows)

abbrev pub reference_run :
    (lease_seconds clock : ℕ) → List Call → List AgentRunAttempt → List AgentRunAttempt
reference_run lease_seconds clock [] rows = rows
reference_run lease_seconds clock (c ∷ cs) rows =
    reference_run lease_seconds clock cs (reference_step lease_seconds clock c rows)

-- What a claim that succeeds has added.
pub claim-eq-ok :
    (lease_seconds run_id : ℕ) (number : ℤ) (worker : Text) (ids : AttemptIds) (now : DateTime)
    (rows : List AgentRunAttempt) {rows' : List AgentRunAttempt} {l : AgentAttemptLease}
    → Service.claim lease_seconds run_id number worker ids now rows ≡ ok (rows', l)
    → (a : AgentRunAttempt) × ((Attempt.start ids.id
            (record { run_id = run_id; attempt_number = number; lease_token = ids.lease_token })
            worker
            (add_seconds now lease_seconds)
            (some now)
            0
          ≡ ok a)
        × ((any (conflicts a) rows ≡ false) × ((rows' ≡ rows ++ a ∷ []) × (l ≡ lease a))))
unfolding Service.claim AttemptStore.add
claim-eq-ok lease_seconds run_id number worker ids now rows {rows'} {l} h =
    elim (Result-cases (
      Attempt.start ids.id
        (record { run_id = run_id; attempt_number = number; lease_token = ids.lease_token }) worker
        (add_seconds now lease_seconds) (some now) 0)) [
          | inr (x, e) ↦ absurd (ok-ne-err (rw e at h))
          | inl (a, e) ↦ elim (Bool-cases (any (conflicts a) rows)) [
            | inl c ↦ absurd (ok-ne-err (rw (e, c) at h))
            | inr c ↦
                let added = ok-injective (rw (e, c) at h) in
                (a, (e, (c, (sym (ap (λ p. p.0) added), sym (ap (λ p. p.1) added)))))
          ]
        ]

step-IsStored :
    (lease_seconds clock : ℕ) (c : Call) (rows : List AgentRunAttempt)
    → All IsStored rows
    → All IsStored (reference_step lease_seconds clock c rows)
step-IsStored lease_seconds clock (claiming run_id number worker ids now) rows p =
    elim (Result-cases (Service.claim lease_seconds run_id number worker ids now rows)) [
      | inr (x, e) ↦ rw e p
      | inl ((rows', l), e) ↦
          let (a, (started, (_, (added, _)))) =
            claim-eq-ok lease_seconds run_id number worker ids now rows e in
          rw (e, added)
            (append-All IsStored rows a p
              (start-IsStored ids.id _ worker (add_seconds now lease_seconds) now started))
    ]
step-IsStored lease_seconds clock (requesting r database_now) rows p =
    reference-IsStored lease_seconds clock database_now r rows p

step-eq-reference_step :
    (lease_seconds clock : ℕ) (c : Call) (rows : List AgentRunAttempt)
    → 1 ≤ lease_seconds
    → IsTimely c
    → All IsStored rows
    → step lease_seconds c rows ≡ reference_step lease_seconds clock c rows
step-eq-reference_step lease_seconds clock (claiming run_id number worker ids now) rows some_time t
      p =
    refl
step-eq-reference_step lease_seconds clock (requesting r database_now) rows some_time (aware, early)
      p =
    ap (after rows)
      (perform-eq-reference lease_seconds clock database_now r rows some_time aware early p)

run-eq-reference_run :
    (lease_seconds clock : ℕ) (cs : List Call) (rows : List AgentRunAttempt)
    → 1 ≤ lease_seconds
    → All IsTimely cs
    → All IsStored rows
    → run lease_seconds cs rows ≡ reference_run lease_seconds clock cs rows
run-eq-reference_run lease_seconds clock [] rows some_time t p = refl
run-eq-reference_run lease_seconds clock (c ∷ cs) rows some_time (t, ts) p =
    ap (run lease_seconds cs) (step-eq-reference_step lease_seconds clock c rows some_time t p)
    ∙ run-eq-reference_run lease_seconds clock cs (reference_step lease_seconds clock c rows)
        some_time ts (step-IsStored lease_seconds clock c rows p)

-- The table that the statements of the repository leave after any claims and requests, from an empty
-- table, is the one that the methods of AgentRunAttempt leave where they are applied to every row, with
-- the additional check that a worker's lease is current at the time of the database, which may be
-- before or after the worker's. A lease lasts for at least a second, and times are timezone-aware.
pub history-eq-reference :
    (lease_seconds clock : ℕ) (cs : List Call)
    → 1 ≤ lease_seconds
    → All IsTimely cs
    → run lease_seconds cs [] ≡ reference_run lease_seconds clock cs []
history-eq-reference lease_seconds clock cs some_time ts =
    run-eq-reference_run lease_seconds clock cs [] some_time ts tt
