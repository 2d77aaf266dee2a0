-- ===== src/Agents/Run/Progress.antt =====
-- Where a run can get to.
use legal_workbench.Prelude.{
  ℕ, ◌≡◌, refl, true, false, not, ◌||◌, Option, none, List, [], ◌∷◌, DateTime, ok, Result-cases,
  inl, inr, arith, is_some, after, contains, ◌∙◌,
}
use legal_workbench.Agents.Enums.{
  AgentRunStatus, queued, preparing, running, validating, completed, needs_more_information, failed,
  timed_out, cancelled, dead_letter, run_status_eq,
}
use legal_workbench.Agents.Run.{
  AgentRun, transitions, terminal, transition_to, heartbeat, drain_status_changes,
}
use legal_workbench.Agents.Run.Trail.{Call, moving, beating, draining, perform, run}

abbrev pub begun_statuses : List AgentRunStatus
begun_statuses = running ∷ validating ∷ completed ∷ needs_more_information ∷ timed_out ∷ []

abbrev pub ended_statuses : List AgentRunStatus
ended_statuses =
    failed ∷ timed_out ∷ completed ∷ needs_more_information ∷ cancelled ∷ dead_letter ∷ []

-- What holds of a run between two calls: one that got as far as running has a start time, and one
-- that ended has an end time.
pub record IsDated (r : AgentRun) : Type 0 where
  pub begun : (not (contains begun_statuses r.status) || is_some r.started_at) ≡ true
  pub ended : (not (contains ended_statuses r.status) || is_some r.finished_at) ≡ true

move-IsDated :
    (r : AgentRun) (target : AgentRunStatus) (now : Option DateTime) (clock id : ℕ) {r' : AgentRun}
    → IsDated r
    → transition_to r target now clock id ≡ ok r'
    → IsDated r'
unfolding transition_to
move-IsDated r queued now clock id d h = ground arith
move-IsDated r _ now clock id d h = ground arith

perform-IsDated :
    (r : AgentRun) (c : Call) {r' : AgentRun} → IsDated r → perform r c ≡ ok r' → IsDated r'
unfolding perform heartbeat drain_status_changes
perform-IsDated r (moving target now clock id) d h = move-IsDated r target now clock id d h
perform-IsDated r (beating now clock) d h = ground arith
perform-IsDated r draining d h = ground arith

after-IsDated : (r : AgentRun) (c : Call) → IsDated r → IsDated (after r (perform r c))
after-IsDated r c d = elim (Result-cases (perform r c)) [
  | inl (r', e) ↦ rw e (perform-IsDated r c d e)
  | inr (x, e) ↦ rw e d
]

run_keeps : (r : AgentRun) (cs : List Call) → IsDated r → IsDated (run r cs)
unfolding run
run_keeps r [] d = d
run_keeps r (c ∷ cs) d = run_keeps (after r (perform r c)) cs (after-IsDated r c d)

-- A queued run has, after any calls, a start time if it is running, validating, timed out,
-- completed or in need of information, and an end time if it has ended in any way.
pub run-IsDated : (r : AgentRun) (cs : List Call) → r.status ≡ queued → IsDated (run r cs)
run-IsDated r cs q = run_keeps r cs (ground arith)

after-terminal :
    (r : AgentRun) (c : Call)
    → contains terminal r.status ≡ true
    → (after r (perform r c)).status ≡ r.status
unfolding perform transition_to heartbeat drain_status_changes
after-terminal r (moving target now clock id) t = ground arith
after-terminal r (beating now clock) t = ground arith
after-terminal r draining t = ground arith

-- A run that is completed, needs information, is cancelled or is a dead letter keeps that status
-- whatever is called.
pub run-terminal :
    (r : AgentRun) (cs : List Call)
    → contains terminal r.status ≡ true
    → (run r cs).status ≡ r.status
unfolding run
run-terminal r [] t = refl
run-terminal r (c ∷ cs) t =
    let same = after-terminal r c t in run-terminal (after r (perform r c)) cs (rw same t) ∙ same

-- The statuses to go through, to complete a run.
unfoldable pub route : AgentRunStatus → List AgentRunStatus
route validating = completed ∷ []
route running = validating ∷ completed ∷ []
route preparing = running ∷ validating ∷ completed ∷ []
route queued = preparing ∷ running ∷ validating ∷ completed ∷ []
route failed = queued ∷ preparing ∷ running ∷ validating ∷ completed ∷ []
route timed_out = queued ∷ preparing ∷ running ∷ validating ∷ completed ∷ []
route _ = []

-- The calls that move through a list of statuses at one time.
unfoldable pub moves : (clock : ℕ) → List AgentRunStatus → List Call
moves clock [] = []
moves clock (s ∷ ss) = moving s none clock 0 ∷ moves clock ss

after_move :
    (r : AgentRun) (target : AgentRunStatus) (clock id : ℕ)
    → contains (transitions r.status) target ≡ true
    → (after r (perform r (moving target none clock id))).status ≡ target
unfolding perform transition_to
after_move r target clock id h = ground arith

-- Each status of a list is reached from the one before it.
abbrev IsPath : AgentRunStatus → List AgentRunStatus → AgentRunStatus → Type 0
IsPath s [] t = s ≡ t
IsPath s (u ∷ us) t = (contains (transitions s) u ≡ true) × IsPath u us t

run-moves :
    (r : AgentRun) (clock : ℕ) (us : List AgentRunStatus) (t : AgentRunStatus)
    → IsPath r.status us t
    → (run r (moves clock us)).status ≡ t
unfolding run moves
run-moves r clock [] t p = p
run-moves r clock (u ∷ us) t (edge, rest) =
    let r' = after r (perform r (moving u none clock 0)) in
    run-moves r' clock us t (rw (after_move r u clock 0 edge) rest)

route-IsPath : (s : AgentRunStatus) → contains terminal s ≡ false → IsPath s (route s) completed
unfolding route
route-IsPath queued h = ground arith
route-IsPath _ h = ground arith

-- Every run that is not in a terminal status, a failed or timed out one too, can still be
-- completed: the moves along its route are all accepted.
pub can_complete :
    (r : AgentRun) (clock : ℕ)
    → contains terminal r.status ≡ false
    → (run r (moves clock (route r.status))).status ≡ completed
can_complete r clock h = run-moves r clock (route r.status) completed (route-IsPath r.status h)
