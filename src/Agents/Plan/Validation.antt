-- ===== src/Agents/Plan/Validation.antt =====
-- A plan that validate_steps accepts can be executed.
use legal_workbench.Prelude.{
  ℕ, ◌≡◌, ◌≤◌, refl, sym, ◌∙◌, true, false, not, Option, none, some, List, [], ◌∷◌, ◌++◌, Text, any,
  length, distinct, arith, subst, append_assoc, append-nil, Result, ok, err, eq, contains, text_eq,
  text_beq_iff,
}
use mathlib.Core.List.{Perm, flatten}
use legal_workbench.Agents.Plan.{
  AgentPlanStep, AgentExecutionPlan, ids, put_step, by_id, ready_waves, check_steps, validate_steps,
  discard?, after_checks,
}
use legal_workbench.Agents.Plan.Waves.{IsOrdered, ready_waves-IsOrdered}
use legal_workbench.Agents.Plan.Acyclic.{IsRanked, ready_waves_of_ranked}

put_step-append :
    (table : List AgentPlanStep) (s : AgentPlanStep)
    → contains (ids table) s.step_id ≡ false
    → put_step table s ≡ table ++ s ∷ []
unfolding put_step
put_step-append [] s h = refl
put_step-append (t ∷ ts) s h = ground (arith, put_step-append ts s)

contains-ids-mid :
    (ts : List AgentPlanStep) (s : AgentPlanStep) (ss : List AgentPlanStep) (a : Text)
    → eq s.step_id a ≡ true
    → contains (ids (ts ++ s ∷ ss)) a ≡ true
contains-ids-mid [] s ss a e = ground arith
contains-ids-mid (t ∷ ts) s ss a e = ground (arith, contains-ids-mid ts s ss a)

distinct_mid :
    (table : List AgentPlanStep) (s : AgentPlanStep) (ss : List AgentPlanStep)
    → distinct (ids (table ++ s ∷ ss)) ≡ true
    → contains (ids table) s.step_id ≡ false
distinct_mid [] s ss d = refl
distinct_mid (t ∷ ts) s ss d = ground (
  arith,
  distinct_mid ts s ss,
  contains-ids-mid ts s ss t.step_id,
  text_beq_iff t.step_id s.step_id,
  text_beq_iff s.step_id t.step_id,
)

by_id-append :
    (table steps : List AgentPlanStep)
    → distinct (ids (table ++ steps)) ≡ true
    → by_id table steps ≡ table ++ steps
unfolding by_id
by_id-append table [] d = sym (append-nil table)
by_id-append table (s ∷ ss) d =
    let e = append_assoc table (s ∷ []) ss in
    rw (put_step-append table s (distinct_mid table s ss d))
      (by_id-append (table ++ s ∷ []) ss (rw e d) ∙ e)

check_parts :
    (p : AgentExecutionPlan) (registered : List Text)
    → check_steps p registered ≡ ok tt
    → (1 ≤ length p.steps)
      × (length p.steps ≤ 4)
      × (distinct (ids p.steps) ≡ true)
      × (any (λ s. not (contains registered s.agent_key)) p.steps ≡ false)
unfolding check_steps
check_parts p registered h = ground arith

tail_parts :
    (r : Result (Unit {0})) (m : Option (Result (List (List AgentPlanStep))))
    → after_checks r (discard? m) ≡ some (ok tt)
    → (r ≡ ok tt) × ((ws : List (List AgentPlanStep)) × (m ≡ some (ok ws)))
tail_parts (ok tt) none h = absurd (ground arith)
tail_parts (ok tt) (some (ok ws)) h = (refl, (ws, refl))
tail_parts (ok tt) (some (err e)) h = absurd (ground arith)
tail_parts (err e) m h = absurd (ground arith)

-- A plan that validate_steps accepts has one to four steps, all for registered agents, and has
-- waves, which hold each of its steps once, in an order that respects every dependency.
pub validate_steps-IsOrdered :
    (p : AgentExecutionPlan) (registered : List Text)
    → validate_steps p registered ≡ some (ok tt)
    → (1 ≤ length p.steps)
      × (length p.steps ≤ 4)
      × (any (λ s. not (contains registered s.agent_key)) p.steps ≡ false)
      × ((ws : List (List AgentPlanStep)) × (ready_waves p ≡ some (ok ws))
          × Perm (flatten ws) p.steps
          × IsOrdered [] ws)
unfolding validate_steps
validate_steps-IsOrdered p registered h =
    let (checked, (ws, w)) = tail_parts (check_steps p registered) (ready_waves p) h in
    let (low, high, different, known) = check_parts p registered checked in
    let (perm, ordered) = ready_waves-IsOrdered p ws w in
    let table = by_id-append [] p.steps different in
    (low, high, known, (ws, w, subst (Perm (flatten ws)) table perm, ordered))

-- A plan that passes the checks before the waves, and whose dependencies are of lower rank than the
-- steps that they stand in by some numbering, is accepted.
pub validate_steps_accepts :
    (p : AgentExecutionPlan) (registered : List Text) (rank : Text → ℕ)
    → check_steps p registered ≡ ok tt
    → IsRanked rank [] p.steps p.steps
    → validate_steps p registered ≡ some (ok tt)
unfolding validate_steps
validate_steps_accepts p registered rank checked r =
    let (_, _, different, _) = check_parts p registered checked in
    let table : by_id [] p.steps ≡ p.steps = by_id-append [] p.steps different in
    let (ws, w) = ready_waves_of_ranked p rank (subst (λ t. IsRanked rank [] t t) (sym table) r) in
    rw (checked, w)
