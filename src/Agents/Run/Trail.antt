-- ===== src/Agents/Run/Trail.antt =====
-- The recorded status changes are the history of the run.
use legal_workbench.Prelude.{
  ℕ, ◌≡◌, refl, true, Option, some, List, [], ◌∷◌, ◌++◌, DateTime, Result, ok, Result-cases, inl,
  inr, arith, after, contains, sym, subst, now_or, append_assoc,
}
use legal_workbench.Agents.Enums.{AgentRunStatus, run_status_eq}
use legal_workbench.Agents.Run.{
  AgentRun, AgentRunStatusChange, transitions, status_change, transition_to, drain_status_changes,
  heartbeat,
}

-- A call of a method of an existing run.
pub data Call : Type 0 where
  moving : AgentRunStatus → Option DateTime → (clock change_id : ℕ) → Call
  beating : Option DateTime → (clock : ℕ) → Call
  draining : Call

unfoldable pub perform : AgentRun → Call → Result AgentRun
perform r (moving target now clock id) = transition_to r target now clock id
perform r (beating now clock) = heartbeat r now clock
perform r draining = ok (drain_status_changes r).0

-- What a call hands out to be stored.
unfoldable pub drained : AgentRun → Call → List AgentRunStatusChange
drained r draining = (drain_status_changes r).1
drained r (moving target now clock id) = []
drained r (beating now clock) = []

unfoldable pub run : AgentRun → List Call → AgentRun
run r [] = r
run r (c ∷ cs) = run (after r (perform r c)) cs

-- All status changes that a list of calls stored.
unfoldable pub stored : AgentRun → List Call → List AgentRunStatusChange
stored r [] = []
stored r (c ∷ cs) = drained r c ++ stored (after r (perform r c)) cs

-- Changes that lead from one status to another, each by an edge of the status machine.
abbrev pub Leads : AgentRunStatus → List AgentRunStatusChange → AgentRunStatus → Type 0
Leads s [] t = s ≡ t
Leads s (c ∷ cs) t =
    (c.from_status ≡ some s)
    × (contains (transitions s) c.to_status ≡ true)
    × Leads c.to_status cs t

Leads-append :
    (s t u : AgentRunStatus) (cs ds : List AgentRunStatusChange)
    → Leads s cs t
    → Leads t ds u
    → Leads s (cs ++ ds) u
Leads-append s t u [] ds h k = subst (λ x. Leads x ds u) (sym h) k
Leads-append s t u (c ∷ cs) ds (f, e, h) k = (f, e, Leads-append c.to_status t u cs ds h k)

transition_parts :
    (r : AgentRun) (target : AgentRunStatus) (now : Option DateTime) (clock id : ℕ) {r' : AgentRun}
    → transition_to r target now clock id ≡ ok r'
    → (contains (transitions r.status) target ≡ true)
      × (r'.status ≡ target)
      × (r'.pending_status_changes
          ≡ r.pending_status_changes ++ status_change r target (now_or now clock) id ∷ [])
unfolding transition_to
transition_parts r target now clock id h = ground arith

heartbeat_parts :
    (r : AgentRun) (now : Option DateTime) (clock : ℕ) {r' : AgentRun}
    → heartbeat r now clock ≡ ok r'
    → (r'.status ≡ r.status) × (r'.pending_status_changes ≡ r.pending_status_changes)
unfolding heartbeat
heartbeat_parts r now clock h = ground arith

-- A moving call extends the pending changes by the edge that it takes.
after_moving :
    (s : AgentRunStatus) (r : AgentRun) (target : AgentRunStatus) (now : Option DateTime)
    (clock id : ℕ)
    → Leads s r.pending_status_changes r.status
    → let r' = after r (transition_to r target now clock id) in
      Leads s r'.pending_status_changes r'.status
after_moving s r target now clock id h = elim (Result-cases (transition_to r target now clock id)) [
  | inl (r', e) ↦
      let (edge, moved, extended) = transition_parts r target now clock id e in
      let step = status_change r target (now_or now clock) id in
      let led =
        Leads-append s r.status target r.pending_status_changes (step ∷ []) h (refl, edge, refl) in
      rw e (rw (moved, extended) led)
  | inr (x, e) ↦ rw e h
]

after_beating :
    (s : AgentRunStatus) (r : AgentRun) (now : Option DateTime) (clock : ℕ)
    → Leads s r.pending_status_changes r.status
    → let r' = after r (heartbeat r now clock) in Leads s r'.pending_status_changes r'.status
after_beating s r now clock h = elim (Result-cases (heartbeat r now clock)) [
  | inl (r', e) ↦ let (same, kept) = heartbeat_parts r now clock e in rw e (rw (same, kept) h)
  | inr (x, e) ↦ rw e h
]

trail_from :
    (s : AgentRunStatus) (r : AgentRun) (cs : List Call)
    → Leads s r.pending_status_changes r.status
    → Leads s (stored r cs ++ (run r cs).pending_status_changes) (run r cs).status
unfolding run stored drained perform drain_status_changes
trail_from s r [] h = h
trail_from s r (moving target now clock id ∷ cs) h =
    trail_from s (after r (transition_to r target now clock id)) cs
      (after_moving s r target now clock id h)
trail_from s r (beating now clock ∷ cs) h =
    trail_from s (after r (heartbeat r now clock)) cs (after_beating s r now clock h)
trail_from s r (draining ∷ cs) h =
    let r' = (drain_status_changes r).0 in
    rw append_assoc (
      Leads-append s r.status (run r' cs).status r.pending_status_changes
        (stored r' cs ++ (run r' cs).pending_status_changes) h (trail_from r.status r' cs refl))

-- Whatever is called on a run, the status changes that were drained, followed by those still
-- pending, lead from the first status to the present one, each from where the last one ended and by
-- an edge of the status machine: no change is lost, repeated or made up.
pub trail :
    (r : AgentRun) (cs : List Call)
    → r.pending_status_changes ≡ []
    → Leads r.status (stored r cs ++ (run r cs).pending_status_changes) (run r cs).status
trail r cs e = trail_from r.status r cs (rw e refl)
