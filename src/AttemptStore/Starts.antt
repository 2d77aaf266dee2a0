-- ===== src/AttemptStore/Starts.antt =====
-- AgentExecutionLeaseService.start: a run that starts, with its attempt.
use legal_workbench.Prelude.{
  ℕ, ◌+◌, ◌*◌, ◌≡◌, ◌<◌, refl, sym, ap, ◌∙◌, subst, true, false, some, List, [], ◌∷◌, ◌++◌, Text,
  DateTime, ok, nat_eq, any, arith, Result-cases, inl, inr, add_seconds, ok-injective, ok-ne-err,
}
use legal_workbench.Prelude.Int.{int_eq}
use legal_workbench.Agents.Enums.{
  AgentRunStatus, running, preparing, attempt_status_eq, run_status_eq,
}
use legal_workbench.Agents.Attempt.{AgentAttemptLease, AgentRunAttempt, lease, ensure_current}
use legal_workbench.Agents.Attempt
use legal_workbench.Agents.Run.{AgentRun, AgentRunStatusChange, transition_to, status_change}
use legal_workbench.AttemptStore.{conflicts}
use legal_workbench.AttemptStore.Service.{StartInput, start_run, running_at, leased}
use legal_workbench.AttemptStore.Service
use legal_workbench.AttemptStore.Histories.{claim-eq-ok}

running_at_later : (i : StartInput) → i.preparing_at.ticks < (running_at i).ticks
running_at_later i = ground arith

-- What a transition that succeeds has done.
transition-eq-ok :
    (r : AgentRun) (target : AgentRunStatus) (at : DateTime) (change : ℕ) {r' : AgentRun}
    → transition_to r target (some at) 0 change ≡ ok r'
    → (r'.status ≡ target)
      × ((r'.id ≡ r.id)
          × ((r'.worker_id ≡ r.worker_id)
              × (r'.pending_status_changes
                  ≡ r.pending_status_changes ++ status_change r target at change ∷ [])))
unfolding transition_to
transition-eq-ok r target at change h = (ground arith, (ground arith, (ground arith, ground arith)))

-- The lease that a claim returns is good until it ends.
started-IsCurrent :
    (lease_seconds clock id : ℕ) (l : AgentAttemptLease) (worker : Text) (now at : DateTime)
    {a : AgentRunAttempt}
    → Attempt.start id l worker (add_seconds now lease_seconds) (some now) 0 ≡ ok a
    → at.aware ≡ true
    → at.ticks < now.ticks + lease_seconds * 1000000
    → (a.run_id ≡ l.run_id) × (ensure_current a (lease a) (some at) clock ≡ ok tt)
unfolding Attempt.start ensure_current
started-IsCurrent lease_seconds clock id l worker now at h aware early =
    (ground arith, ground arith)

start_run-eq-ok :
    (lease_seconds : ℕ) (i : StartInput) (run : AgentRun) (rows : List AgentRunAttempt)
    {run' : AgentRun} {rows' : List AgentRunAttempt} {l : AgentAttemptLease}
    → start_run lease_seconds i run rows ≡ ok (run', (rows', l))
    → (prepared : AgentRun) × ((transition_to run preparing (some i.preparing_at) 0 i.first_change
          ≡ ok prepared)
        × ((Service.claim lease_seconds run.id run.attempt_number i.worker_id i.ids i.claimed_at
                rows
              ≡ ok (rows', l))
            × (transition_to
                  (leased lease_seconds i prepared)
                  running
                  (some (running_at i))
                  0
                  i.second_change
                ≡ ok run')))
unfolding start_run
start_run-eq-ok lease_seconds i run rows {run'} {rows'} {l} h =
    elim (Result-cases (transition_to run preparing (some i.preparing_at) 0 i.first_change)) [
      | inr (x, e) ↦ absurd (ok-ne-err (rw e at h))
      | inl (prepared, e) ↦
          let claiming =
            Service.claim lease_seconds run.id run.attempt_number i.worker_id i.ids i.claimed_at
              rows in
          elim (Result-cases claiming) [
            | inr (x, f) ↦ absurd (ok-ne-err (rw (e, f) at h))
            | inl (p, f) ↦
                let begun =
                  transition_to (leased lease_seconds i prepared) running (some (running_at i)) 0
                    i.second_change in
                elim (Result-cases begun) [
                  | inr (x, g) ↦ absurd (ok-ne-err (rw (e, f, g) at h))
                  | inl (started, g) ↦
                      let ends = ok-injective (rw (e, f, g) at h) in
                      (
                        prepared,
                        (e, (f ∙ ap ok (ap (λ q. q.1) ends), g ∙ ap ok (ap (λ q. q.0) ends))),
                      )
                ]
          ]
    ]

-- A run that starts is running for its worker and has recorded two changes of status, to preparing and
-- then, at a later time, to running; the table has one new attempt of the run, which conflicts with no
-- other row, and the lease of that attempt is accepted until it ends.
pub started_run :
    (lease_seconds clock : ℕ) (i : StartInput) (run : AgentRun) (rows : List AgentRunAttempt)
    (at : DateTime) {run' : AgentRun} {rows' : List AgentRunAttempt} {l : AgentAttemptLease}
    → start_run lease_seconds i run rows ≡ ok (run', (rows', l))
    → at.aware ≡ true
    → at.ticks < i.claimed_at.ticks + lease_seconds * 1000000
    → (a : AgentRunAttempt) × ((c : AgentRunStatusChange) × ((d : AgentRunStatusChange)
          × ((run'.status ≡ running)
              × ((run'.worker_id ≡ some i.worker_id)
                  × ((run'.pending_status_changes
                        ≡ (run.pending_status_changes ++ c ∷ []) ++ d ∷ [])
                      × ((c.to_status ≡ preparing)
                          × ((d.to_status ≡ running)
                              × ((c.changed_at.ticks < d.changed_at.ticks)
                                  × ((rows' ≡ rows ++ a ∷ [])
                                      × ((any (conflicts a) rows ≡ false)
                                          × ((a.run_id ≡ run.id)
                                              × (ensure_current a l (some at) clock
                                                  ≡ ok tt))))))))))))
started_run lease_seconds clock i run rows at {run'} {rows'} {l} h aware early =
    let (prepared, (prepares, (claims, starts))) = start_run-eq-ok lease_seconds i run rows h in
    let (a, (made, (free, (added, same)))) =
      claim-eq-ok lease_seconds run.id run.attempt_number i.worker_id i.ids i.claimed_at rows
        claims in
    let (of_run, current) =
      started-IsCurrent lease_seconds clock i.ids.id _ i.worker_id i.claimed_at at made aware
        early in
    let (_, (_, (_, first))) =
      transition-eq-ok run preparing i.preparing_at i.first_change prepares in
    let (is_running, (_, (worker, second))) =
      transition-eq-ok (leased lease_seconds i prepared) running (running_at i) i.second_change
        starts in
    let last =
      status_change (leased lease_seconds i prepared) running (running_at i) i.second_change in
    (
      a,
      (
        status_change run preparing i.preparing_at i.first_change,
        (
          last,
          (
            is_running,
            (
              worker,
              (
                second ∙ ap (λ cs. cs ++ last ∷ []) first,
                (
                  refl,
                  (
                    refl,
                    (
                      running_at_later i,
                      (
                        added,
                        (
                          free,
                          (
                            of_run,
                            subst (λ k. ensure_current a k (some at) clock ≡ ok tt) (sym same)
                                current,
                          ),
                        ),
                      ),
                    ),
                  ),
                ),
              ),
            ),
          ),
        ),
      ),
    )
