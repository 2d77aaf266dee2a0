-- ===== src/Proposal/Decisions.antt =====
-- A proposal is decided once, and only within what it proposed.
use legal_workbench.Prelude.{
  ℕ, ◌≡◌, refl, true, false, not, ◌||◌, Option, List, [], ◌∷◌, Text, is_falsy, is_empty, Result, ok,
  ◌>>=◌, eq, ◌==◌, contains, nat_eq, text_eq, after, Result-cases, inl, inr, arith, is_some,
  Bool-cases, length,
}
use legal_workbench.Prelude.Values.{Dict}
use legal_workbench.Proposal.Enums.{
  pending, approved, partially_approved, rejected, superseded, proposal_status_eq,
}
use legal_workbench.Proposal.{
  MatterUpdateProposal, ProposalFieldDecision, create, review, supersede, keys, subset, field_names,
  approved_changes, approves, has_null, allowed_fields,
}

pub data Call : Type 0 where
  reviewing : List ProposalFieldDecision → Text → Option Text → (expected clock : ℕ) → Call
  superseding : (expected : ℕ) → Call

abbrev reviewed : Result (MatterUpdateProposal × Dict) → Result MatterUpdateProposal
reviewed r = r >>= λ x. ok x.0

unfoldable pub perform : MatterUpdateProposal → Call → Result MatterUpdateProposal
perform p (reviewing ds reviewer reason expected clock) =
    reviewed (review p ds reviewer reason expected clock)
perform p (superseding expected) = supersede p expected

unfoldable pub run : MatterUpdateProposal → List Call → MatterUpdateProposal
run p [] = p
run p (c ∷ cs) = run (after p (perform p c)) cs

subset-approved_changes :
    (ds : List ProposalFieldDecision) (names : List Text)
    → subset (field_names ds) names ≡ true
    → subset (keys (approved_changes ds)) names ≡ true
unfolding approved_changes
subset-approved_changes [] names h = refl
subset-approved_changes (d ∷ ds) names h = elim (Bool-cases (approves d)) [
  | inl e ↦ rw e (ground (arith, subset-approved_changes ds names))
  | inr e ↦ rw e (subset-approved_changes ds names (ground arith))
]

-- What holds of a proposal between two calls.
pub record IsSound (p : MatterUpdateProposal) : Type 0 where
  pub reviewer : is_some p.reviewed_by ≡ not (contains (pending ∷ superseded ∷ []) p.status)
  pub dated : is_some p.reviewed_at ≡ is_some p.reviewed_by
  pub proposed : subset (keys p.final_changes) (keys p.proposed_changes) ≡ true
  pub valued : has_null p.final_changes ≡ false
  pub allowed : subset (keys p.proposed_changes) allowed_fields ≡ true
  pub agreed :
      is_empty p.final_changes ≡ not (contains (approved ∷ partially_approved ∷ []) p.status)
  pub complete :
      (not (eq p.status approved) || length p.final_changes == length p.proposed_changes) ≡ true
  pub justified : (not (eq p.status rejected) || not (is_falsy p.rejection_reason)) ≡ true

create-IsSound :
    (id candidate matter version : ℕ) (changes : List (Text × Dict)) (reason creator : Text)
    (clock : ℕ) {p : MatterUpdateProposal}
    → create id candidate matter version changes reason creator clock ≡ ok p
    → IsSound p
unfolding create has_null
create-IsSound id candidate matter version changes reason creator clock h = ground arith

perform-IsSound :
    (p : MatterUpdateProposal) (c : Call) {p' : MatterUpdateProposal}
    → IsSound p
    → perform p c ≡ ok p'
    → IsSound p'
unfolding perform review supersede
perform-IsSound p (reviewing ds reviewer reason expected clock) s h =
    ground (arith, subset-approved_changes ds (keys p.proposed_changes))
perform-IsSound p (superseding expected) s h = ground arith

after-IsSound : (p : MatterUpdateProposal) (c : Call) → IsSound p → IsSound (after p (perform p c))
after-IsSound p c s = elim (Result-cases (perform p c)) [
  | inl (p', e) ↦ rw e (perform-IsSound p c s e)
  | inr (x, e) ↦ rw e s
]

run-IsSound : (p : MatterUpdateProposal) (cs : List Call) → IsSound p → IsSound (run p cs)
unfolding run
run-IsSound p [] s = s
run-IsSound p (c ∷ cs) s = run-IsSound (after p (perform p c)) cs (after-IsSound p c s)

-- A created proposal has, after any calls, a reviewer and a time of review exactly if it was
-- approved, partly approved or rejected; final changes, of proposed fields and with values, exactly
-- if it was approved or partly approved, as many as were proposed if it was approved; and a reason
-- if it was rejected.
pub proposal-IsSound :
    (id candidate matter version : ℕ) (changes : List (Text × Dict)) (reason creator : Text)
    (clock : ℕ) (cs : List Call) {p : MatterUpdateProposal}
    → create id candidate matter version changes reason creator clock ≡ ok p
    → IsSound (run p cs)
proposal-IsSound id candidate matter version changes reason creator clock cs h =
    run-IsSound _ cs (create-IsSound id candidate matter version changes reason creator clock h)

after_decided :
    (p : MatterUpdateProposal) (c : Call) → eq p.status pending ≡ false → after p (perform p c) ≡ p
unfolding perform review supersede
after_decided p (reviewing ds reviewer reason expected clock) h = ground arith
after_decided p (superseding expected) h = ground arith

-- A proposal that was reviewed or superseded is never changed again.
pub run_reviewed :
    (p : MatterUpdateProposal) (cs : List Call) → eq p.status pending ≡ false → run p cs ≡ p
unfolding run
run_reviewed p [] h = refl
run_reviewed p (c ∷ cs) h = rw (after_decided p c h) (run_reviewed p cs h)
