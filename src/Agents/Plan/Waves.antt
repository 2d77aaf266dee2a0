-- ===== src/Agents/Plan/Waves.antt =====
-- The waves of a plan: the loop ends, and each step stands in one wave, behind its dependencies.
use legal_workbench.Prelude.{
  ℕ, zero, suc, ◌≡◌, ◌≢◌, ◌≤◌, refl, true, false, ◌||◌, Option, none, some, List, [], ◌∷◌, ◌++◌,
  Text, is_empty, length, distinct, All, Bool-cases, inl, inr, arith, subst, Result, ok, err, eq,
  contains, text_eq, text_beq_iff, All-map, all-All,
}
use mathlib.Core.List.Perm
use mathlib.Core.List.{Perm, flatten}
use legal_workbench.Agents.Plan.{
  AgentPlanStep, AgentExecutionPlan, ids, put_step, by_id, is_ready, without, ready_steps, waves,
  add_wave, ready_waves,
}
use legal_workbench.Agents.Plan.Steps.{
  ready_steps-All, wave-append-rest-perm, without-distinct, length-without-lt,
}

-- Each step of each wave has its dependencies in the completed steps and the waves before it.
abbrev pub IsOrdered : List Text → List (List AgentPlanStep) → Type 0
IsOrdered completed [] = Unit
IsOrdered completed (w ∷ ws) =
    (is_empty w ≡ false)
    × All (λ s. All (λ d. contains completed d ≡ true) s.depends_on) w
    × IsOrdered (completed ++ ids w) ws

add_wave-total :
    (w : List AgentPlanStep) (m : Option (Result (List (List AgentPlanStep))))
    → m ≢ none
    → add_wave w m ≢ none
add_wave-total w none h = absurd (h refl)
add_wave-total w (some (ok ws)) h = λ e. cc
add_wave-total w (some (err e)) h = λ e. cc

pub waves-total :
    (fuel : ℕ) (remaining : List AgentPlanStep) (completed : List Text)
    → distinct (ids remaining) ≡ true
    → length remaining ≤ fuel
    → waves fuel remaining completed ≢ none
unfolding waves
waves-total zero [] completed d h = λ e. cc
waves-total (suc fuel) [] completed d h = λ e. cc
waves-total zero (s ∷ ss) completed d h = absurd (omega arith)
waves-total (suc fuel) (s ∷ ss) completed d h =
    let ready = ready_steps completed (s ∷ ss) in
    elim (Bool-cases (is_empty ready)) [
      | inl idle ↦ rw idle (λ e. cc)
      | inr busy ↦ rw busy (
          add_wave-total ready (waves fuel (without (ids ready) (s ∷ ss)) (completed ++ ids ready))
            (waves-total fuel (without (ids ready) (s ∷ ss)) (completed ++ ids ready)
              (without-distinct completed (s ∷ ss) d)
              (omega (arith, length-without-lt completed (s ∷ ss) d busy))))
    ]

-- What waves may be returned for the steps that remain.
abbrev IsSchedule :
    List AgentPlanStep → List Text → Option (Result (List (List AgentPlanStep))) → Type 0
IsSchedule remaining completed (some (ok ws)) = Perm (flatten ws) remaining × IsOrdered completed ws
IsSchedule remaining completed _ = Unit

add_wave-IsSchedule :
    (remaining rest w : List AgentPlanStep) (completed : List Text)
    (m : Option (Result (List (List AgentPlanStep))))
    → is_empty w ≡ false
    → All (λ s. is_ready completed s ≡ true) w
    → Perm (w ++ rest) remaining
    → IsSchedule rest (completed ++ ids w) m
    → IsSchedule remaining completed (add_wave w m)
unfolding flatten
add_wave-IsSchedule remaining rest w completed none n a p h = tt
add_wave-IsSchedule remaining rest w completed (some (err e)) n a p h = tt
add_wave-IsSchedule remaining rest w completed (some (ok ws)) n a p (q, o) =
    (Perm.trans (Perm.append_left w q) p, (n, All-map _ _ (λ s. all-All _ s.depends_on) w a, o))

waves-IsSchedule :
    (fuel : ℕ) (remaining : List AgentPlanStep) (completed : List Text)
    → distinct (ids remaining) ≡ true
    → IsSchedule remaining completed (waves fuel remaining completed)
unfolding waves flatten
waves-IsSchedule zero [] completed d = (Perm.refl [], tt)
waves-IsSchedule (suc fuel) [] completed d = (Perm.refl [], tt)
waves-IsSchedule zero (s ∷ ss) completed d = tt
waves-IsSchedule (suc fuel) (s ∷ ss) completed d =
    let ready = ready_steps completed (s ∷ ss) in
    let rest = without (ids ready) (s ∷ ss) in
    elim (Bool-cases (is_empty ready)) [
      | inl idle ↦ rw idle tt
      | inr busy ↦ rw busy (
          add_wave-IsSchedule (s ∷ ss) rest ready completed
            (waves fuel rest (completed ++ ids ready)) busy (ready_steps-All completed (s ∷ ss) d)
            (wave-append-rest-perm completed (s ∷ ss) d)
            (waves-IsSchedule fuel rest (completed ++ ids ready)
              (without-distinct completed (s ∷ ss) d)))
    ]

contains-put_step :
    (table : List AgentPlanStep) (s : AgentPlanStep) (a : Text)
    → contains (ids (put_step table s)) a ≡ (contains (ids table) a || eq s.step_id a)
unfolding put_step
contains-put_step [] s a = ground arith
contains-put_step (t ∷ ts) s a =
    ground (arith, contains-put_step ts s a, text_beq_iff t.step_id s.step_id)

put_step-distinct :
    (table : List AgentPlanStep) (s : AgentPlanStep)
    → distinct (ids table) ≡ true
    → distinct (ids (put_step table s)) ≡ true
unfolding put_step
put_step-distinct [] s d = refl
put_step-distinct (t ∷ ts) s d = ground (
  arith,
  put_step-distinct ts s,
  contains-put_step ts s t.step_id,
  text_beq_iff t.step_id s.step_id,
  text_beq_iff s.step_id t.step_id,
)

pub by_id-distinct :
    (table steps : List AgentPlanStep)
    → distinct (ids table) ≡ true
    → distinct (ids (by_id table steps)) ≡ true
unfolding by_id
by_id-distinct table [] d = d
by_id-distinct table (s ∷ ss) d = by_id-distinct (put_step table s) ss (put_step-distinct table s d)

-- The loop of the waves ends for every plan, with waves or with an error.
pub ready_waves-total : (p : AgentExecutionPlan) → ready_waves p ≢ none
unfolding ready_waves
ready_waves-total p =
    waves-total (length (by_id [] p.steps)) (by_id [] p.steps) [] (by_id-distinct [] p.steps refl)
      (omega arith)

-- The waves that are returned hold each step of the plan's table once, none is empty, and each step
-- stands in a later wave than all the steps that it depends on.
pub ready_waves-IsOrdered :
    (p : AgentExecutionPlan) (ws : List (List AgentPlanStep))
    → ready_waves p ≡ some (ok ws)
    → Perm (flatten ws) (by_id [] p.steps) × IsOrdered [] ws
unfolding ready_waves
ready_waves-IsOrdered p ws h = subst (IsSchedule (by_id [] p.steps) []) h (
    waves-IsSchedule (length (by_id [] p.steps)) (by_id [] p.steps) []
      (by_id-distinct [] p.steps refl))
