-- ===== src/AttemptStore/Keys.antt =====
-- The keys of the table of attempts: a lease token, and a run with a number, belong to one row.
use legal_workbench.Prelude.{
  DateTime, ℕ, ◌+◌, ◌≡◌, ◌≤◌, refl, sym, ◌∙◌, Bool, true, false, ◌&&◌, ◌||◌, List, [], ◌∷◌, ◌++◌,
  keep, length, Text, DateTime, after, eq, nat_eq, if◌then◌else◌, contains, any, arith, Bool-cases,
  Result-cases, inl, inr, add_seconds, ==_iff,
}
use legal_workbench.Prelude.Int.{ℤ, int_eq, int_beq_iff}
use legal_workbench.Agents.Enums.{
  AgentAttemptStatus, failed, timed_out, cancelled, attempt_status_eq,
}
use legal_workbench.Agents.Attempt.{AgentAttemptLease, AgentRunAttempt}
use legal_workbench.AttemptStore.{
  conflicts, update_where, update_active, active_lease_predicates, is_expired, beat_row,
  completed_row, failed_row, expired_row,
}
use legal_workbench.AttemptStore
use legal_workbench.AttemptStore.Service.{AttemptIds}
use legal_workbench.AttemptStore.Service
use legal_workbench.AttemptStore.Equivalence.{
  Request, beating, completing, failing, expiring, perform, is_attempt,
}
use legal_workbench.AttemptStore.Histories.{Call, claiming, requesting, step, run, claim-eq-ok}

abbrev pub has_token : ℕ → AgentRunAttempt → Bool
has_token k a = eq a.lease_token k

both : {b : Bool} → b ≡ true → b ≡ false → ⊥
both e f = cc

any_head : (b c : Bool) → (b || c) ≡ false → b ≡ false
any_head true c h = h
any_head false c h = refl

any_tail : (b c : Bool) → (b || c) ≡ false → c ≡ false
any_tail true c h = cc
any_tail false c h = h

-- How many rows of a table a test accepts.
abbrev pub accepted : (AgentRunAttempt → Bool) → List AgentRunAttempt → ℕ
accepted test rows = length (keep test rows)

accepted-update_where :
    (test when : AgentRunAttempt → Bool) (f : AgentRunAttempt → AgentRunAttempt)
    → ((a : AgentRunAttempt) → test (f a) ≡ test a)
    → (rows : List AgentRunAttempt) → accepted test (update_where when f rows) ≡ accepted test rows
accepted-update_where test when f h [] = refl
accepted-update_where test when f h (a ∷ rows) =
    ground (arith, h a, accepted-update_where test when f h rows)

accepted-update_active :
    (test when : AgentRunAttempt → Bool) (f : AgentRunAttempt → AgentRunAttempt)
    → ((a : AgentRunAttempt) → test (f a) ≡ test a)
    → (rows : List AgentRunAttempt)
    → accepted test (after rows (update_active when f rows)) ≡ accepted test rows
accepted-update_active test when f h rows = elim (Bool-cases (any when rows)) [
  | inl e ↦ rw e (accepted-update_where test when f h rows)
  | inr e ↦ rw e refl
]

accepted-snoc :
    (test : AgentRunAttempt → Bool) (rows : List AgentRunAttempt) (a : AgentRunAttempt)
    → accepted test (rows ++ a ∷ []) ≡ accepted test rows + (if test a then 1 else 0)
accepted-snoc test [] a = ground arith
accepted-snoc test (b ∷ rows) a = ground (arith, accepted-snoc test rows a)

-- A row that conflicts with none of a table's rows has none of their keys.
accepted-zero :
    (test : AgentRunAttempt → Bool) (a : AgentRunAttempt) (rows : List AgentRunAttempt)
    → ((b : AgentRunAttempt) → test a ≡ true → test b ≡ true → conflicts a b ≡ true)
    → test a ≡ true
    → any (conflicts a) rows ≡ false
    → accepted test rows ≡ 0
accepted-zero test a [] h t c = refl
accepted-zero test a (b ∷ rows) h t c = elim (Bool-cases (test b)) [
  | inl e ↦ absurd (both (h b t e) (any_head (conflicts a b) _ c))
  | inr e ↦ rw e (accepted-zero test a rows h t (any_tail (conflicts a b) _ c))
]

-- A key: rows that have it conflict, and no statement changes it.
record IsKey (test : AgentRunAttempt → Bool) : Type 0 where
  clash : (a b : AgentRunAttempt) → test a ≡ true → test b ≡ true → conflicts a b ≡ true
  beaten : (at until : DateTime) (a : AgentRunAttempt) → test (beat_row at until a) ≡ test a
  finished : (at : DateTime) (a : AgentRunAttempt) → test (completed_row at a) ≡ test a
  ended :
      (status : AgentAttemptStatus) (code message : Text) (at : DateTime) (a : AgentRunAttempt)
      → test (failed_row status code message at a) ≡ test a

has_token-IsKey : (k : ℕ) → IsKey (has_token k)
has_token-IsKey k = record {
  clash = λ a b s t. ground arith;
  beaten = λ at until a. refl;
  finished = λ at a. refl;
  ended = λ status code message at a. refl;
}

and_both : (b c : Bool) → (b && c) ≡ true → (b ≡ true) × (c ≡ true)
and_both true c h = (refl, h)
and_both false c h = cc

numbered :
    (run_id : ℕ) (number : ℤ) (a : AgentRunAttempt)
    → is_attempt run_id number a ≡ true
    → (a.run_id ≡ run_id) × (a.attempt_number ≡ number)
numbered run_id number a h =
    let (same_run, same_attempt) = and_both (eq a.run_id run_id) (eq a.attempt_number number) h in
    ((==_iff a.run_id run_id).0 same_run, (int_beq_iff a.attempt_number number).0 same_attempt)

same_number :
    (run_id : ℕ) (number : ℤ) (a b : AgentRunAttempt)
    → is_attempt run_id number a ≡ true
    → is_attempt run_id number b ≡ true
    → conflicts a b ≡ true
same_number run_id number a b s t =
    let (a_run, a_number) = numbered run_id number a s in
    let (b_run, b_number) = numbered run_id number b t in
    rw
      (
        (==_iff a.run_id b.run_id).1 (a_run ∙ sym b_run),
        (int_beq_iff a.attempt_number b.attempt_number).1 (a_number ∙ sym b_number),
      )
      refl

is_attempt-IsKey : (run_id : ℕ) (number : ℤ) → IsKey (is_attempt run_id number)
is_attempt-IsKey run_id number = record {
  clash = same_number run_id number;
  beaten = λ at until a. refl;
  finished = λ at a. refl;
  ended = λ status code message at a. refl;
}

module _ (test : AgentRunAttempt → Bool) (k : IsKey test) where
  perform-accepted :
      (lease_seconds : ℕ) (database_now : DateTime) (r : Request) (rows : List AgentRunAttempt)
      → accepted test (after rows (perform lease_seconds database_now r rows)) ≡ accepted test rows
  unfolding perform Service.heartbeat AttemptStore.heartbeat AttemptStore.complete AttemptStore.fail
      AttemptStore.expire_current
  perform-accepted lease_seconds database_now (beating l now) rows =
      let until = add_seconds now lease_seconds in
      elim (Bool-cases (any (active_lease_predicates l now database_now) rows)) [
        | inl e ↦ rw e (
            accepted-update_where test (active_lease_predicates l now database_now)
              (beat_row now until) (k.beaten now until) rows)
        | inr e ↦ rw e refl
      ]
  perform-accepted lease_seconds database_now (completing l now) rows =
      accepted-update_active test (active_lease_predicates l now database_now) (completed_row now)
        (k.finished now) rows
  perform-accepted lease_seconds database_now (failing l status code message now) rows =
      elim (Bool-cases (contains (failed ∷ timed_out ∷ cancelled ∷ []) status)) [
        | inl e ↦ rw e (
            accepted-update_active test (active_lease_predicates l now database_now)
              (failed_row status code message now) (k.ended status code message now) rows)
        | inr e ↦ rw e refl
      ]
  perform-accepted lease_seconds database_now (expiring run_id number now) rows =
      accepted-update_where test (is_expired run_id number now) (expired_row now)
        (k.ended _ _ _ now) rows

  step-accepted :
      (lease_seconds : ℕ) (c : Call) (rows : List AgentRunAttempt)
      → accepted test rows ≤ 1
      → accepted test (step lease_seconds c rows) ≤ 1
  step-accepted lease_seconds (claiming run_id number worker ids now) rows h =
      elim (Result-cases (Service.claim lease_seconds run_id number worker ids now rows)) [
        | inr (x, e) ↦ rw e h
        | inl ((rows', l), e) ↦
            let (a, (_, (free, (added, _)))) =
              claim-eq-ok lease_seconds run_id number worker ids now rows e in
            let grown = accepted-snoc test rows a in
            let fresh = accepted-zero test a rows (k.clash a) in
            rw (e, added)
              (elim (Bool-cases (test a)) [
                | inl t ↦ ground (arith, fresh t free, grown)
                | inr t ↦ ground (arith, grown)
              ])
      ]
  step-accepted lease_seconds (requesting r database_now) rows h =
      rw (perform-accepted lease_seconds database_now r rows) h

  run-accepted :
      (lease_seconds : ℕ) (cs : List Call) (rows : List AgentRunAttempt)
      → accepted test rows ≤ 1
      → accepted test (run lease_seconds cs rows) ≤ 1
  run-accepted lease_seconds [] rows h = h
  run-accepted lease_seconds (c ∷ cs) rows h =
      run-accepted lease_seconds cs (step lease_seconds c rows)
        (step-accepted lease_seconds c rows h)

accepted_le :
    (test when : AgentRunAttempt → Bool)
    → ((a : AgentRunAttempt) → test a ≡ true → when a ≡ true)
    → (rows : List AgentRunAttempt) → accepted test rows ≤ accepted when rows
accepted_le test when h [] = omega arith
accepted_le test when h (a ∷ rows) = ground (arith, h a, accepted_le test when h rows)

active-has_token :
    (l : AgentAttemptLease) (at database_now : DateTime) (a : AgentRunAttempt)
    → active_lease_predicates l at database_now a ≡ true
    → has_token l.lease_token a ≡ true
unfolding active_lease_predicates
active-has_token l at database_now a h = ground arith

expired-is_attempt :
    (run_id : ℕ) (number : ℤ) (at : DateTime) (a : AgentRunAttempt)
    → is_expired run_id number at a ≡ true
    → is_attempt run_id number a ≡ true
expired-is_attempt run_id number at a h = ground arith

-- After any claims and requests, from an empty table, at most one row has a given token, and at most
-- one is a given run's attempt with a given number. So at most one row meets the condition of an
-- update by a lease, whatever the lease and the times of the worker and the database, and at most one
-- that of the expiry of a run's attempt.
pub one_row :
    (lease_seconds : ℕ) (cs : List Call) (token run_id : ℕ) (number : ℤ) (l : AgentAttemptLease)
    (at database_now : DateTime)
    → (accepted (has_token token) (run lease_seconds cs []) ≤ 1)
      × ((accepted (is_attempt run_id number) (run lease_seconds cs []) ≤ 1)
          × ((accepted (active_lease_predicates l at database_now) (run lease_seconds cs []) ≤ 1)
              × (accepted (is_expired run_id number at) (run lease_seconds cs []) ≤ 1)))
one_row lease_seconds cs token run_id number l at database_now =
    let rows = run lease_seconds cs [] in
    let by_number =
      run-accepted (is_attempt run_id number) (is_attempt-IsKey run_id number) lease_seconds cs []
        (omega arith) in
    (
      run-accepted (has_token token) (has_token-IsKey token) lease_seconds cs [] (omega arith),
      (
        by_number,
        (
          omega (
            arith,
            run-accepted (has_token l.lease_token) (has_token-IsKey l.lease_token) lease_seconds cs
                [] (omega arith),
            accepted_le (active_lease_predicates l at database_now) (has_token l.lease_token)
                (active-has_token l at database_now) rows,
          ),
          omega (
            arith,
            by_number,
            accepted_le (is_expired run_id number at) (is_attempt run_id number)
                (expired-is_attempt run_id number at) rows,
          ),
        ),
      ),
    )
