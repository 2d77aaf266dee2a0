-- ===== src/Agents/Plan/Acyclic.antt =====
-- A plan whose dependencies can be ranked has waves, and validate_steps accepts it.
use legal_workbench.Prelude.{
  ℕ, zero, suc, ◌≡◌, ◌≢◌, ◌≤◌, ◌<◌, refl, true, false, not, Option, none, some, List, [], ◌∷◌, ◌++◌,
  Text, is_empty, all, length, distinct, All, Bool-cases, inl, inr, arith, subst, Result, ok, err,
  eq, contains, contains-append, text_eq, text_beq_iff, ◌⊎◌, Error, All-map,
}
use native.Mathlib.Decide.{dec_lt}
use legal_workbench.Agents.Plan.{
  AgentPlanStep, AgentExecutionPlan, ids, by_id, is_ready, without, ready_steps, waves, add_wave,
  ready_waves,
}
use legal_workbench.Agents.Plan.Steps.{
  without-distinct, none_ready, contains-without, All-keep_of_All,
}
use legal_workbench.Agents.Plan.Waves.{by_id-distinct, ready_waves-total}

-- A dependency is completed, or is a remaining step of lower rank.
abbrev pub Precedes : (Text → ℕ) → List Text → List AgentPlanStep → Text → Text → Type 0
Precedes rank completed remaining a d =
    (contains completed d ≡ true) ⊎ ((contains (ids remaining) d ≡ true) × (rank d < rank a))

-- All dependencies of the remaining steps do.
abbrev pub IsRanked : (Text → ℕ) → List Text → List AgentPlanStep → List AgentPlanStep → Type 0
IsRanked rank completed remaining steps =
    All (λ s. All (Precedes rank completed remaining s.step_id) s.depends_on) steps

module _ (rank : Text → ℕ) where
  lower_bound :
      (n : ℕ) (ts : List AgentPlanStep) (d : Text)
      → All (λ s. n ≤ rank s.step_id) ts
      → contains (ids ts) d ≡ true
      → n ≤ rank d
  lower_bound n [] d h c = absurd (ground arith)
  lower_bound n (t ∷ ts) d (h, hs) c = elim (Bool-cases (eq t.step_id d)) [
    | inl e ↦ subst (λ a. n ≤ rank a) ((text_beq_iff t.step_id d).0 e) h
    | inr e ↦ lower_bound n ts d hs (ground arith)
  ]

  module _ (completed : List Text) (remaining : List AgentPlanStep) where
    -- A step of least rank is ready.
    least_ready :
        (n : ℕ) (a : Text) (ds : List Text)
        → All (λ s. n ≤ rank s.step_id) remaining
        → rank a ≤ n
        → All (Precedes rank completed remaining a) ds
        → all (contains completed) ds ≡ true
    least_ready n a [] low r h = refl
    least_ready n a (d ∷ ds) low r (inl done, hs) = ground (arith, least_ready n a ds low r hs)
    least_ready n a (d ∷ ds) low r (inr (waits, lower), hs) =
        absurd (omega (arith, lower_bound n remaining d low waits))

    raise_bound :
        (n : ℕ)
        → All (λ s. n ≤ rank s.step_id) remaining
        → (ts : List AgentPlanStep) → All (λ s. n ≤ rank s.step_id) ts
        → IsRanked rank completed remaining ts
        → All (λ s. is_ready completed s ≡ false) ts
        → All (λ s. suc n ≤ rank s.step_id) ts
    raise_bound n low [] b r idle = tt
    raise_bound n low (t ∷ ts) (b, bs) (r, rs) (i, is) = (
      elim (dec_lt n (rank t.step_id)) [
        | yes p ↦ p
        | no p ↦
            let ready = least_ready n t.step_id t.depends_on low (omega arith) r in
            absurd (ground arith)
      ],
      raise_bound n low ts bs rs is,
    )

    -- Where no step is ready, every rank is above every number.
    descent :
        (n : ℕ)
        → IsRanked rank completed remaining remaining
        → All (λ s. is_ready completed s ≡ false) remaining
        → All (λ s. n ≤ rank s.step_id) remaining
    descent zero r idle = All-map _ _ (λ s h. omega arith) remaining idle
    descent (suc n) r idle = let low = descent n r idle in raise_bound n low remaining low r idle

    -- What precedes a step before a wave does so after it.
    Precedes-after :
        (a d : Text)
        → Precedes rank completed remaining a d
        → let gone = ids (ready_steps completed remaining) in
          Precedes rank (completed ++ gone) (without gone remaining) a d
    Precedes-after a d (inl done) =
        inl (ground (arith, contains-append completed (ids (ready_steps completed remaining)) d))
    Precedes-after a d (inr (waits, lower)) =
        let gone = ids (ready_steps completed remaining) in
        elim (Bool-cases (contains gone d)) [
          | inl e ↦ inl (ground (arith, contains-append completed gone d))
          | inr e ↦ inr (ground (arith, contains-without gone remaining d), lower)
        ]

    IsRanked-after :
        IsRanked rank completed remaining remaining
        → let gone = ids (ready_steps completed remaining) in
          IsRanked rank (completed ++ gone) (without gone remaining) (without gone remaining)
    IsRanked-after r =
        let gone = ids (ready_steps completed remaining) in
        All-keep_of_All _ (λ s. not (contains gone s.step_id)) remaining
          (All-map _ _ (λ s h. All-map _ _ (Precedes-after s.step_id) s.depends_on h) remaining r)

  add_wave-ne-err :
      (w : List AgentPlanStep) (m : Option (Result (List (List AgentPlanStep)))) (e : Error)
      → m ≢ some (err e)
      → add_wave w m ≢ some (err e)
  add_wave-ne-err w none e h = λ q. cc
  add_wave-ne-err w (some (ok ws)) e h = λ q. cc
  add_wave-ne-err w (some (err x)) e h = h

  waves-ne-err :
      (fuel : ℕ) (remaining : List AgentPlanStep) (completed : List Text) (e : Error)
      → IsRanked rank completed remaining remaining
      → distinct (ids remaining) ≡ true
      → waves fuel remaining completed ≢ some (err e)
  unfolding waves
  waves-ne-err zero [] completed e r d = λ q. cc
  waves-ne-err (suc fuel) [] completed e r d = λ q. cc
  waves-ne-err zero (s ∷ ss) completed e r d = λ q. cc
  waves-ne-err (suc fuel) (s ∷ ss) completed e r d =
      let ready = ready_steps completed (s ∷ ss) in
      let rest = without (ids ready) (s ∷ ss) in
      elim (Bool-cases (is_empty ready)) [
        | inl idle ↦
            let low =
              descent completed (s ∷ ss) (suc (rank s.step_id)) r
                (none_ready completed (s ∷ ss) d idle) in
            absurd (omega (arith, low.0))
        | inr busy ↦ rw busy (
            add_wave-ne-err ready (waves fuel rest (completed ++ ids ready)) e (
              waves-ne-err fuel rest (completed ++ ids ready) e
                (IsRanked-after completed (s ∷ ss) r) (without-distinct completed (s ∷ ss) d)))
      ]

ready_waves-ne-err :
    (p : AgentExecutionPlan) (rank : Text → ℕ) (e : Error)
    → IsRanked rank [] (by_id [] p.steps) (by_id [] p.steps)
    → ready_waves p ≢ some (err e)
unfolding ready_waves
ready_waves-ne-err p rank e r =
    waves-ne-err rank (length (by_id [] p.steps)) (by_id [] p.steps) [] e r
      (by_id-distinct [] p.steps refl)

-- A plan whose dependencies are steps of the plan, of lower rank by some numbering of the steps,
-- has waves: no cycle is reported.
pub ready_waves_of_ranked :
    (p : AgentExecutionPlan) (rank : Text → ℕ)
    → IsRanked rank [] (by_id [] p.steps) (by_id [] p.steps)
    → (ws : List (List AgentPlanStep)) × (ready_waves p ≡ some (ok ws))
ready_waves_of_ranked p rank r = decide_outcome (ready_waves p) refl
  where
    decide_outcome :
        (m : Option (Result (List (List AgentPlanStep))))
        → ready_waves p ≡ m
        → (ws : List (List AgentPlanStep)) × (ready_waves p ≡ some (ok ws))
    decide_outcome none h = absurd (ready_waves-total p h)
    decide_outcome (some (ok ws)) h = (ws, h)
    decide_outcome (some (err e)) h = absurd (ready_waves-ne-err p rank e r h)
