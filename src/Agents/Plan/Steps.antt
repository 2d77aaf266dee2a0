-- ===== src/Agents/Plan/Steps.antt =====
-- Lists of steps and their ids.
use legal_workbench.Prelude.{
  ◌+◌, ◌≡◌, ◌<◌, refl, ap, ◌∙◌, Bool, true, false, not, ◌&&◌, ◌||◌, List, [], ◌∷◌, ◌++◌, Text,
  is_empty, keep, length, distinct, All, Bool-cases, inl, inr, arith, subst, eq, contains, text_eq,
  text_beq_iff, sort_by, insert_by, sort_by-perm, length-sort_by, All-zip, All-map,
}
use mathlib.Core.List.Perm
use mathlib.Core.List.{Perm, perm_middle}
use legal_workbench.Agents.Plan.{AgentPlanStep, ids, is_ready, without, ready_steps, comes_before}

module _ (before : AgentPlanStep → AgentPlanStep → Bool) where
  contains-ids-insert :
      (a : Text) (s : AgentPlanStep) (ts : List AgentPlanStep)
      → contains (ids (insert_by before s ts)) a ≡ contains (ids (s ∷ ts)) a
  unfolding insert_by
  contains-ids-insert a s [] = refl
  contains-ids-insert a s (t ∷ ts) = ground (arith, contains-ids-insert a s ts)

  pub contains-ids-sort :
      (a : Text) (ts : List AgentPlanStep)
      → contains (ids (sort_by before ts)) a ≡ contains (ids ts) a
  unfolding sort_by
  contains-ids-sort a [] = refl
  contains-ids-sort a (t ∷ ts) =
      contains-ids-insert a t (sort_by before ts)
      ∙ ap (λ b. eq t.step_id a || b) (contains-ids-sort a ts)

  All-insert {κ} :
      (P : AgentPlanStep → Type κ) (s : AgentPlanStep) (ts : List AgentPlanStep)
      → P s
      → All P ts
      → All P (insert_by before s ts)
  unfolding insert_by
  All-insert P s [] h k = (h, tt)
  All-insert P s (t ∷ ts) h (k, ks) = elim (Bool-cases (before t s)) [
    | inl e ↦ rw e (k, All-insert P s ts h ks)
    | inr e ↦ rw e (h, (k, ks))
  ]

  pub All-sort {κ} :
      (P : AgentPlanStep → Type κ) (ts : List AgentPlanStep) → All P ts → All P (sort_by before ts)
  unfolding sort_by
  All-sort P [] h = tt
  All-sort P (t ∷ ts) (h, hs) = All-insert P t (sort_by before ts) h (All-sort P ts hs)

module _ (p : AgentPlanStep → Bool) where
  pub All-keep : (ts : List AgentPlanStep) → All (λ s. p s ≡ true) (keep p ts)
  All-keep [] = tt
  All-keep (t ∷ ts) = elim (Bool-cases (p t)) [
    | inl e ↦ rw e (e, All-keep ts)
    | inr e ↦ rw e (All-keep ts)
  ]

  contains-keep :
      (a : Text) (ts : List AgentPlanStep)
      → contains (ids ts) a ≡ false
      → contains (ids (keep p ts)) a ≡ false
  contains-keep a [] h = refl
  contains-keep a (t ∷ ts) h = ground (arith, contains-keep a ts)

  pub distinct-keep :
      (ts : List AgentPlanStep) → distinct (ids ts) ≡ true → distinct (ids (keep p ts)) ≡ true
  distinct-keep [] h = refl
  distinct-keep (t ∷ ts) h = ground (arith, contains-keep t.step_id ts, distinct-keep ts)

  -- A step that has another id than all of a list.
  apart :
      (a : Text) (ts : List AgentPlanStep)
      → contains (ids ts) a ≡ false
      → All (λ s. eq a s.step_id ≡ false) ts
  apart a [] h = tt
  apart a (t ∷ ts) h = (
    ground (arith, text_beq_iff a t.step_id, text_beq_iff t.step_id a),
    apart a ts (ground arith),
  )

  -- Where ids are distinct, the ids of the steps kept pick out those steps.
  picks :
      (ts : List AgentPlanStep)
      → distinct (ids ts) ≡ true
      → All (λ s. contains (ids (keep p ts)) s.step_id ≡ p s) ts
  picks [] d = tt
  picks (t ∷ ts) d =
      let tail = picks ts (ground arith) in
      let others = apart t.step_id ts (ground arith) in
      (
        ground (arith, contains-keep t.step_id ts, text_beq_iff t.step_id t.step_id),
        All-zip _ _ _ (λ s h k. ground arith) ts tail others,
      )

keep-cong :
    (p q : AgentPlanStep → Bool) (ts : List AgentPlanStep)
    → All (λ s. p s ≡ q s) ts
    → keep p ts ≡ keep q ts
keep-cong p q [] h = refl
keep-cong p q (t ∷ ts) (h, hs) = rw (h, keep-cong p q ts hs)

keep-not-perm :
    (p : AgentPlanStep → Bool) (ts : List AgentPlanStep)
    → Perm (keep p ts ++ keep (λ s. not (p s)) ts) ts
keep-not-perm p [] = Perm.refl []
keep-not-perm p (t ∷ ts) = elim (Bool-cases (p t)) [
  | inl e ↦ rw e (Perm.cons t (keep-not-perm p ts))
  | inr e ↦ rw e (
      Perm.trans (perm_middle (keep p ts) (keep (λ s. not (p s)) ts))
        (Perm.cons t (keep-not-perm p ts)))
]

keep-empty :
    (p : AgentPlanStep → Bool) (ts : List AgentPlanStep)
    → length (keep p ts) ≡ 0
    → All (λ s. p s ≡ false) ts
keep-empty p [] h = tt
keep-empty p (t ∷ ts) h = (ground arith, keep-empty p ts (ground arith))

pub All-keep_of_All {κ} :
    (P : AgentPlanStep → Type κ) (p : AgentPlanStep → Bool) (ts : List AgentPlanStep)
    → All P ts
    → All P (keep p ts)
All-keep_of_All P p [] h = tt
All-keep_of_All P p (t ∷ ts) (h, hs) = elim (Bool-cases (p t)) [
  | inl e ↦ rw e (h, All-keep_of_All P p ts hs)
  | inr e ↦ rw e (All-keep_of_All P p ts hs)
]

-- An id of a list is among those taken out, or among the rest.
pub contains-without :
    (gone : List Text) (ts : List AgentPlanStep) (a : Text)
    → contains (ids (without gone ts)) a ≡ (contains (ids ts) a && not (contains gone a))
contains-without gone [] a = refl
contains-without gone (t ∷ ts) a = elim (Bool-cases (eq t.step_id a)) [
  | inl e ↦
      let same = (text_beq_iff t.step_id a).0 e in
      subst
        (λ b.
          contains (ids (without gone (t ∷ ts))) b
          ≡ (contains (ids (t ∷ ts)) b && not (contains gone b)))
        same (ground (arith, text_beq_iff t.step_id t.step_id, contains-without gone ts t.step_id))
  | inr e ↦ ground (arith, contains-without gone ts a)
]

length-keep-not :
    (p : AgentPlanStep → Bool) (ts : List AgentPlanStep)
    → length (keep p ts) + length (keep (λ s. not (p s)) ts) ≡ length ts
length-keep-not p [] = refl
length-keep-not p (t ∷ ts) = ground (arith, length-keep-not p ts)

module _ (completed : List Text) (remaining : List AgentPlanStep)
    (d : distinct (ids remaining) ≡ true) where
  -- What is left after a wave is what was not ready.
  pub without-ready :
      without (ids (ready_steps completed remaining)) remaining
      ≡ keep (λ s. not (is_ready completed s)) remaining
  without-ready = keep-cong _ _ remaining (
      All-map _ _ (λ s h. ap not (contains-ids-sort comes_before s.step_id _ ∙ h)) remaining
        (picks (is_ready completed) remaining d))

  pub wave-append-rest-perm :
      Perm
        (ready_steps completed remaining
          ++ without (ids (ready_steps completed remaining)) remaining)
        remaining
  wave-append-rest-perm = rw without-ready (
      Perm.trans (Perm.append_right _ (sort_by-perm comes_before _))
        (keep-not-perm (is_ready completed) remaining))

  pub without-distinct :
      distinct (ids (without (ids (ready_steps completed remaining)) remaining)) ≡ true
  without-distinct = distinct-keep _ remaining d

  pub ready_steps-All : All (λ s. is_ready completed s ≡ true) (ready_steps completed remaining)
  ready_steps-All = All-sort comes_before _ _ (All-keep (is_ready completed) remaining)

  -- A wave that is not empty leaves fewer steps.
  pub length-without-lt :
      is_empty (ready_steps completed remaining) ≡ false
      → length (without (ids (ready_steps completed remaining)) remaining) < length remaining
  length-without-lt some_ready =
      let kept = length-keep-not (is_ready completed) remaining in
      let sorted = length-sort_by comes_before (keep (is_ready completed) remaining) in
      rw without-ready (ground (arith, kept, sorted))

  -- A wave that is empty leaves no step ready.
  pub none_ready :
      is_empty (ready_steps completed remaining) ≡ true
      → All (λ s. is_ready completed s ≡ false) remaining
  none_ready idle =
      keep-empty (is_ready completed) remaining
        (ground (arith, length-sort_by comes_before (keep (is_ready completed) remaining)))
