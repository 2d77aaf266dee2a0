-- ===== src/Candidate/Decisions.antt =====
-- A candidate is decided once, and by a person.
use legal_workbench.Prelude.{
  ℕ, ◌≡◌, refl, true, false, not, ◌||◌, List, [], ◌∷◌, Text, Result, ok, Result-cases, inl, inr,
  arith, eq, after, contains, is_some,
}
use legal_workbench.Candidate.Enums.{
  CandidateResolutionAction, relevant, possibly_relevant, confirmed, linked, information_only,
  ignored, candidate_status_eq, relevance_eq,
}
use legal_workbench.Candidate.{
  MessageCandidate, NewCandidate, Analysis, create, confirm_create_matter, resolve,
  replace_pending_analysis, reject_superseded_analysis, is_pending, in_unit_interval,
}

-- A call of a method that changes a candidate.
pub data Call : Type 0 where
  confirming : Text → (expected clock : ℕ) → Call
  resolving : CandidateResolutionAction → Text → (expected clock : ℕ) → Call
  replacing : Analysis → Call
  superseding : Call

unfoldable pub perform : MessageCandidate → Call → Result MessageCandidate
perform c (confirming actor expected clock) = confirm_create_matter c actor expected clock
perform c (resolving action actor expected clock) = resolve c action actor expected clock
perform c (replacing a) = replace_pending_analysis c a
perform c superseding = reject_superseded_analysis c

unfoldable pub run : MessageCandidate → List Call → MessageCandidate
run c [] = c
run c (k ∷ ks) = run (after c (perform c k)) ks

-- What holds of a candidate between two calls.
pub record IsSound (c : MessageCandidate) : Type 0 where
  pub confident : in_unit_interval c.confidence ≡ true
  pub decided_by :
      is_some c.confirmed_by
      ≡ contains (confirmed ∷ linked ∷ information_only ∷ ignored ∷ []) c.status
  pub decided_at : is_some c.confirmed_at ≡ is_some c.confirmed_by
  pub legal :
      (not (eq c.status confirmed)
        || contains (relevant ∷ possibly_relevant ∷ []) c.legal_relevance)
      ≡ true

create-IsSound : (id : ℕ) (n : NewCandidate) {c : MessageCandidate} → create id n ≡ ok c → IsSound c
unfolding create
create-IsSound id n h = ground arith

perform-IsSound :
    (c : MessageCandidate) (k : Call) {c' : MessageCandidate}
    → IsSound c
    → perform c k ≡ ok c'
    → IsSound c'
unfolding perform confirm_create_matter resolve replace_pending_analysis reject_superseded_analysis
perform-IsSound c (confirming actor expected clock) s h = ground arith
perform-IsSound c (resolving action actor expected clock) s h = ground arith
perform-IsSound c (replacing a) s h = ground arith
perform-IsSound c superseding s h = ground arith

after-IsSound : (c : MessageCandidate) (k : Call) → IsSound c → IsSound (after c (perform c k))
after-IsSound c k s = elim (Result-cases (perform c k)) [
  | inl (c', e) ↦ rw e (perform-IsSound c k s e)
  | inr (x, e) ↦ rw e s
]

run-IsSound : (c : MessageCandidate) (ks : List Call) → IsSound c → IsSound (run c ks)
unfolding run
run-IsSound c [] s = s
run-IsSound c (k ∷ ks) s = run-IsSound (after c (perform c k)) ks (after-IsSound c k s)

-- A created candidate keeps, after any calls, a confidence from 0 to 1, a name and a time of
-- decision exactly if it is confirmed, linked, noted or ignored, and legal relevance if it is
-- confirmed.
pub candidate-IsSound :
    (id : ℕ) (n : NewCandidate) (ks : List Call) {c : MessageCandidate}
    → create id n ≡ ok c
    → IsSound (run c ks)
candidate-IsSound id n ks h = run-IsSound _ ks (create-IsSound id n h)

after_decided :
    (c : MessageCandidate) (k : Call) → is_pending c.status ≡ false → after c (perform c k) ≡ c
unfolding perform confirm_create_matter resolve replace_pending_analysis reject_superseded_analysis
after_decided c (confirming actor expected clock) h = ground arith
after_decided c (resolving action actor expected clock) h = ground arith
after_decided c (replacing a) h = ground arith
after_decided c superseding h = ground arith

-- A candidate that is no longer pending is never changed again: a later analysis does not overwrite
-- a person's decision, and no second decision is taken.
pub run_decided :
    (c : MessageCandidate) (ks : List Call) → is_pending c.status ≡ false → run c ks ≡ c
unfolding run
run_decided c [] h = refl
run_decided c (k ∷ ks) h = rw (after_decided c k h) (run_decided c ks h)
