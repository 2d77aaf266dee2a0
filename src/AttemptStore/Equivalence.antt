-- ===== src/AttemptStore/Equivalence.antt =====
-- The compare-and-set updates of the table against the methods of AgentRunAttempt on every row.
use legal_workbench.Prelude.{
  ℕ, ◌≡◌, ◌≤◌, refl, ap, ◌∙◌, Bool, true, not, ◌&&◌, ◌||◌, some, is_none, List, [], ◌∷◌, map, Text,
  DateTime, Result, ok, err, ◌>>=◌, ◌>>◌, after, succeeds, value_error, stale_agent_attempt, eq,
  nat_eq, if◌then◌else◌, contains, any, All, arith, Bool-cases, inl, inr, add_seconds,
}
use legal_workbench.Prelude.Int.{ℤ, int_eq}
use legal_workbench.Agents.Enums.{
  AgentAttemptStatus, running, failed, timed_out, cancelled, attempt_status_eq,
}
use legal_workbench.Agents.Attempt.{
  AgentAttemptLease, AgentRunAttempt, lease, lease_beq, ensure_current,
}
use legal_workbench.Agents.Attempt
use legal_workbench.AttemptStore.{
  update_where, update_active, active_lease_predicates, beat_row, completed_row, failed_row,
  expired_row, is_expired,
}
use legal_workbench.AttemptStore
use legal_workbench.AttemptStore.Service

-- A stored row: its end of the lease is timezone-aware, and while it runs it has no failure.
pub record IsStored (a : AgentRunAttempt) : Type 0 where
  pub expiry_aware : a.lease_expires_at.aware ≡ true
  pub unexplained :
      (not (eq a.status running) || (is_none a.failure_code && is_none a.failure_message)) ≡ true

module _ {ℓ} {A : Type ℓ} (P : A → Type 0) where
  update_where-eq-map :
      (test : A → Bool) (f g : A → A)
      → ((a : A) → P a → (if test a then f a else a) ≡ g a)
      → (xs : List A) → All P xs
      → update_where test f xs ≡ map g xs
  update_where-eq-map test f g h [] p = refl
  update_where-eq-map test f g h (x ∷ xs) (q, p) =
      rw (h x q, update_where-eq-map test f g h xs p) refl

  any-eq :
      (test check : A → Bool)
      → ((a : A) → P a → test a ≡ check a)
      → (xs : List A) → All P xs
      → any test xs ≡ any check xs
  any-eq test check h [] p = refl
  any-eq test check h (x ∷ xs) (q, p) = rw (h x q, any-eq test check h xs p) refl

-- What a method does to every row of a table, if it accepts one.
abbrev pub on_each :
    (AgentRunAttempt → Result AgentRunAttempt)
    → List AgentRunAttempt
    → Result (List AgentRunAttempt)
on_each method rows =
    if any (λ a. succeeds (method a)) rows
    then ok (map (λ a. after a (method a)) rows)
    else err stale_agent_attempt

update_active-eq-on_each :
    (test : AgentRunAttempt → Bool) (f : AgentRunAttempt → AgentRunAttempt)
    (method : AgentRunAttempt → Result AgentRunAttempt)
    → ((a : AgentRunAttempt)
        → IsStored a
        → (test a ≡ succeeds (method a)) × ((if test a then f a else a) ≡ after a (method a)))
    → (rows : List AgentRunAttempt) → All IsStored rows
    → update_active test f rows ≡ on_each method rows
update_active-eq-on_each test f method h rows p =
    rw
      (
        any-eq IsStored test (λ a. succeeds (method a)) (λ a s. (h a s).0) rows p,
        update_where-eq-map IsStored test f (λ a. after a (method a)) (λ a s. (h a s).1) rows p,
      )
      refl

-- A method where the lease is current at the database's time also.
abbrev pub complete_at :
    AgentAttemptLease
    → (at database_now : DateTime) → (clock : ℕ) → AgentRunAttempt
    → Result AgentRunAttempt
complete_at l at database_now clock a = do
  ensure_current a l (some database_now) clock
  Attempt.complete a l (some at) clock

abbrev pub heartbeat_at :
    AgentAttemptLease
    → (at until database_now : DateTime) → (clock : ℕ) → AgentRunAttempt
    → Result AgentRunAttempt
heartbeat_at l at until database_now clock a = do
  ensure_current a l (some database_now) clock
  Attempt.heartbeat a l at until clock

abbrev pub fail_at :
    AgentAttemptLease
    → AgentAttemptStatus
    → (code message : Text) → (at database_now : DateTime) → (clock : ℕ) → AgentRunAttempt
    → Result AgentRunAttempt
fail_at l status code message at database_now clock a = do
  ensure_current a l (some database_now) clock
  Attempt.fail a l status code message (some at) clock

complete_row :
    (l : AgentAttemptLease) (at database_now : DateTime) (clock : ℕ) (a : AgentRunAttempt)
    → at.aware ≡ true
    → database_now.aware ≡ true
    → IsStored a
    → (active_lease_predicates l at database_now a
        ≡ succeeds (complete_at l at database_now clock a))
      × ((if active_lease_predicates l at database_now a then completed_row at a else a)
          ≡ after a (complete_at l at database_now clock a))
unfolding active_lease_predicates Attempt.complete ensure_current
complete_row l at database_now clock a aware early s = (ground arith, ground arith)

heartbeat_row :
    (l : AgentAttemptLease) (lease_seconds : ℕ) (at database_now : DateTime) (clock : ℕ)
    (a : AgentRunAttempt)
    → 1 ≤ lease_seconds
    → at.aware ≡ true
    → database_now.aware ≡ true
    → IsStored a
    → (active_lease_predicates l at database_now a
        ≡ succeeds (heartbeat_at l at (add_seconds at lease_seconds) database_now clock a))
      × ((if active_lease_predicates l at database_now a
            then beat_row at (add_seconds at lease_seconds) a
            else a)
          ≡ after a (heartbeat_at l at (add_seconds at lease_seconds) database_now clock a))
unfolding active_lease_predicates Attempt.heartbeat ensure_current
heartbeat_row l lease_seconds at database_now clock a some_time aware early s =
    (ground arith, ground arith)

fail_row :
    (l : AgentAttemptLease) (status : AgentAttemptStatus) (code message : Text)
    (at database_now : DateTime) (clock : ℕ) (a : AgentRunAttempt)
    → contains (failed ∷ timed_out ∷ cancelled ∷ []) status ≡ true
    → at.aware ≡ true
    → database_now.aware ≡ true
    → IsStored a
    → (active_lease_predicates l at database_now a
        ≡ succeeds (fail_at l status code message at database_now clock a))
      × ((if active_lease_predicates l at database_now a
            then failed_row status code message at a
            else a)
          ≡ after a (fail_at l status code message at database_now clock a))
unfolding active_lease_predicates Attempt.fail ensure_current
fail_row l status code message at database_now clock a valid aware early s =
    (ground arith, ground arith)

-- Whether a row is the attempt of a run with a number.
abbrev pub is_attempt : (run_id : ℕ) → (attempt_number : ℤ) → AgentRunAttempt → Bool
is_attempt run_id number a = eq a.run_id run_id && eq a.attempt_number number

expire_row :
    (run_id : ℕ) (number : ℤ) (at : DateTime) (clock : ℕ) (a : AgentRunAttempt)
    → at.aware ≡ true
    → IsStored a
    → (if is_expired run_id number at a then expired_row at a else a)
      ≡ (if is_attempt run_id number a then after a (Attempt.expire a (some at) clock) else a)
unfolding Attempt.expire
expire_row run_id number at clock a aware s = ground arith

-- A request to the service about attempts that are stored.
pub data Request : Type 0 where
  beating : AgentAttemptLease → (now : DateTime) → Request
  completing : AgentAttemptLease → (now : DateTime) → Request
  failing :
      AgentAttemptLease → AgentAttemptStatus → (code message : Text) → (now : DateTime) → Request
  expiring : (run_id : ℕ) → (attempt_number : ℤ) → (now : DateTime) → Request

abbrev pub request_time : Request → DateTime
request_time (beating l now) = now
request_time (completing l now) = now
request_time (failing l status code message now) = now
request_time (expiring run_id number now) = now

-- The table after a request, by the statements of the repository.
unfoldable pub perform :
    (lease_seconds : ℕ)
    → (database_now : DateTime) → Request
    → List AgentRunAttempt
    → Result (List AgentRunAttempt)
unfolding Service.heartbeat AttemptStore.complete AttemptStore.fail AttemptStore.expire_current
perform lease_seconds database_now (beating l now) rows = do
  beaten ← Service.heartbeat lease_seconds l now database_now rows
  ok beaten.0
perform lease_seconds database_now (completing l now) rows =
    AttemptStore.complete l now database_now rows
perform lease_seconds database_now (failing l status code message now) rows =
    AttemptStore.fail l status code message now database_now rows
perform lease_seconds database_now (expiring run_id number now) rows =
    ok (AttemptStore.expire_current run_id number now rows).0

-- The table after a request, by the methods of AgentRunAttempt with the additional check of the lease.
abbrev pub reference :
    (lease_seconds clock : ℕ)
    → (database_now : DateTime) → Request
    → List AgentRunAttempt
    → Result (List AgentRunAttempt)
reference lease_seconds clock database_now (beating l now) rows =
    on_each (λ a. heartbeat_at l now (add_seconds now lease_seconds) database_now clock a) rows
reference lease_seconds clock database_now (completing l now) rows =
    on_each (λ a. complete_at l now database_now clock a) rows
reference lease_seconds clock database_now (failing l status code message now) rows =
    if contains (failed ∷ timed_out ∷ cancelled ∷ []) status
    then on_each (λ a. fail_at l status code message now database_now clock a) rows
    else err value_error
reference lease_seconds clock database_now (expiring run_id number now) rows = ok (
    map (λ a. if is_attempt run_id number a then after a (Attempt.expire a (some now) clock) else a)
      rows)

first_of :
    {A B : Type 0} (m : Result A) (b : B)
    → ◌>>=◌ {V = A × B} (◌>>=◌ {V = A} m (λ a. ok (a, b))) (λ p. ok p.0) ≡ m
first_of (ok a) b = refl
first_of (err e) b = refl

-- On a table of stored attempts, a request has the effect that the methods of AgentRunAttempt have on
-- its rows, errors included, where a worker's lease must be current at the database's time as well as
-- at its own; the two clocks may differ. A lease lasts for at least a second.
pub perform-eq-reference :
    (lease_seconds clock : ℕ) (database_now : DateTime) (r : Request) (rows : List AgentRunAttempt)
    → 1 ≤ lease_seconds
    → (request_time r).aware ≡ true
    → database_now.aware ≡ true
    → All IsStored rows
    → perform lease_seconds database_now r rows ≡ reference lease_seconds clock database_now r rows
unfolding perform Service.heartbeat AttemptStore.heartbeat AttemptStore.complete AttemptStore.fail
    AttemptStore.expire_current
perform-eq-reference lease_seconds clock database_now (beating l now) rows some_time aware early p =
    let same =
      update_active-eq-on_each (active_lease_predicates l now database_now)
        (beat_row now (add_seconds now lease_seconds))
        (λ a. heartbeat_at l now (add_seconds now lease_seconds) database_now clock a)
        (λ a s. heartbeat_row l lease_seconds now database_now clock a some_time aware early s) rows
        p in
    first_of (AttemptStore.heartbeat l now (add_seconds now lease_seconds) database_now rows)
      (add_seconds now lease_seconds)
    ∙ same
perform-eq-reference lease_seconds clock database_now (completing l now) rows some_time aware early
      p =
    update_active-eq-on_each (active_lease_predicates l now database_now) (completed_row now)
      (λ a. complete_at l now database_now clock a)
      (λ a s. complete_row l now database_now clock a aware early s) rows p
perform-eq-reference lease_seconds clock database_now (failing l status code message now) rows
      some_time aware early p =
    elim (Bool-cases (contains (failed ∷ timed_out ∷ cancelled ∷ []) status)) [
      | inr e ↦ rw e refl
      | inl e ↦ rw e (
          update_active-eq-on_each (active_lease_predicates l now database_now)
            (failed_row status code message now)
            (λ a. fail_at l status code message now database_now clock a)
            (λ a s. fail_row l status code message now database_now clock a e aware early s) rows p)
    ]
perform-eq-reference lease_seconds clock database_now (expiring run_id number now) rows some_time
      aware early p =
    ap ok (
      update_where-eq-map IsStored (is_expired run_id number now) (expired_row now) _
        (λ a s. expire_row run_id number now clock a aware s) rows p)
