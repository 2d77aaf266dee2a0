-- ===== src/Review/Lifecycle.antt =====
-- The life of a review package from its creation through its review.
use legal_workbench.Prelude.{
  ℕ, ◌≡◌, ◌≢◌, refl, false, Option, List, [], ◌∷◌, Text, is_empty, strip, strip-strip, Result, ok,
  err, Result-cases, is_some, after, succeeds, inl, inr, arith, eq,
}
use legal_workbench.Prelude.Values.{Value}
use legal_workbench.Review.Enums.{ReviewPackageStatus, ReviewDecision, package_status_eq}
use legal_workbench.Review.{ReviewPackage, NewPackage, create, submit, apply_review}

-- A package carries a content hash exactly while it is approved, and its texts are not blank.
pub record IsSound (p : ReviewPackage) : Type 0 where
  pub hashed : is_some p.approved_content_hash ≡ eq p.status ReviewPackageStatus.approved
  pub titled : is_empty p.title ≡ false
  pub proposing : is_empty p.proposed_content ≡ false
  pub stripped : strip p.proposed_content ≡ p.proposed_content
  pub addressed : is_empty p.target ≡ false

create-IsSound :
    (render : Value → Text) (id : ℕ) (n : NewPackage) {p : ReviewPackage}
    → create render id n ≡ ok p
    → IsSound p
unfolding create
create-IsSound render id n h = ground (arith, strip-strip n.proposed_content)

-- A call on an existing package.
pub data Call : Type 0 where
  submitting : (expected clock : ℕ) → Call
  reviewing : ReviewDecision → Option Text → (expected : ℕ) → Call

module _ (hash : Text → Text) where
  abbrev reviewed : Result (ReviewPackage × Option Text) → Result ReviewPackage
  reviewed (ok (p, c)) = ok p
  reviewed (err e) = err e

  unfoldable pub perform : ReviewPackage → Call → Result ReviewPackage
  perform p (submitting expected clock) = submit p expected clock
  perform p (reviewing d c expected) = reviewed (apply_review hash p d c expected)

  -- The package after a list of calls: one that raises leaves it as it was.
  unfoldable pub run : ReviewPackage → List Call → ReviewPackage
  run p [] = p
  run p (c ∷ cs) = run (after p (perform p c)) cs

  perform-IsSound :
      (p : ReviewPackage) (c : Call) {p' : ReviewPackage}
      → IsSound p
      → perform p c ≡ ok p'
      → IsSound p'
  unfolding perform submit apply_review
  perform-IsSound p (submitting expected clock) s h = ground arith
  perform-IsSound p (reviewing d c expected) s h = ground arith

  after-IsSound : (p : ReviewPackage) (c : Call) → IsSound p → IsSound (after p (perform p c))
  after-IsSound p c s = elim (Result-cases (perform p c)) [
    | inl (p', e) ↦ rw e (perform-IsSound p c s e)
    | inr (x, e) ↦ rw e s
  ]

  run-IsSound : (p : ReviewPackage) (cs : List Call) → IsSound p → IsSound (run p cs)
  unfolding run
  run-IsSound p [] s = s
  run-IsSound p (c ∷ cs) s = run-IsSound (after p (perform p c)) cs (after-IsSound p c s)

  -- A created package carries a content hash exactly while it is approved, has a title, a content
  -- without surrounding space and a target, after any calls of submit and apply_review.
  pub history-IsSound :
      (render : Value → Text) (id : ℕ) (n : NewPackage) (cs : List Call) {p : ReviewPackage}
      → create render id n ≡ ok p
      → IsSound (run p cs)
  history-IsSound render id n cs h = run-IsSound _ cs (create-IsSound render id n h)

  -- Once reviewed, a package accepts no further call.
  perform_settled :
      (p : ReviewPackage) (c : Call)
      → p.status ≢ ReviewPackageStatus.draft
      → p.status ≢ ReviewPackageStatus.pending_review
      → succeeds (perform p c) ≡ false
  unfolding perform submit apply_review
  perform_settled p (submitting expected clock) d r = ground arith
  perform_settled p (reviewing q c expected) d r = ground arith

  after_settled :
      (p : ReviewPackage) (c : Call) → succeeds (perform p c) ≡ false → after p (perform p c) ≡ p
  after_settled p c h = ground arith

  -- A package that has been reviewed stays as it is, whatever is called: what was approved, or
  -- refused, cannot be reviewed again or changed.
  pub run_settled :
      (p : ReviewPackage) (cs : List Call)
      → p.status ≢ ReviewPackageStatus.draft
      → p.status ≢ ReviewPackageStatus.pending_review
      → run p cs ≡ p
  unfolding run
  run_settled p [] d r = refl
  run_settled p (c ∷ cs) d r =
      rw (after_settled p c (perform_settled p c d r)) (run_settled p cs d r)
