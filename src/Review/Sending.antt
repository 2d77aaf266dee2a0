-- ===== src/Review/Sending.antt =====
-- Only what a reviewer approved is sent.
use legal_workbench.Prelude.{
  is_text-eq-some, ℕ, ◌≡◌, ◌≢◌, true, false, Option, none, some, List, [], ◌∷◌, Text, is_empty,
  strip, strip-strip, ok, err, Result-cases, inl, inr, arith, ◌⊎◌, ◌∙◌, sym, ap, after,
  invalid_state_transition, text_beq, eq_self, text_eq,
}
use legal_workbench.Prelude.Values.{Value}
use legal_workbench.Review.Enums.{
  ReviewPackageStatus, ReviewDecision, CommunicationStatus, approve, reject, ask_information,
  package_status_eq,
}
use legal_workbench.Review.{
  NewPackage, create, submit, ReviewPackage, ReviewRecord, Communication, apply_review,
  create_from_approved_review, approves, content_or,
}
use legal_workbench.Review.Lifecycle.{Call, submitting, reviewing, perform, run, run_settled}

module _ (hash : Text → Text) where
  -- What an approving review leaves behind.
  approved_parts :
      (p : ReviewPackage) (d : ReviewDecision) (final : Option Text) (expected : ℕ)
      {p' : ReviewPackage} {content : Text}
      → apply_review hash p d final expected ≡ ok (p', some content)
      → (p'.status ≡ ReviewPackageStatus.approved)
        × (p'.approved_content_hash ≡ some (hash content))
        × (content ≡ strip (content_or final p.proposed_content))
        × (is_empty content ≡ false)
        × (approves d ≡ true)
        × (p'.target ≡ p.target)
        × (p'.id ≡ p.id)
  unfolding apply_review
  approved_parts p d final expected h = ground arith

  -- A communication is made only from an approved package, by a record that approves, for the
  -- package's own target, and its content has the hash that the approval left.
  pub sent_parts :
      (id : ℕ) (p : ReviewPackage) (r : ReviewRecord) (actor correlation : Text) (clock : ℕ)
      {c : Communication}
      → create_from_approved_review hash id p r actor correlation clock ≡ ok c
      → (p.status ≡ ReviewPackageStatus.approved)
        × (approves r.decision ≡ true)
        × (p.approved_content_hash ≡ some (hash c.content))
        × (c.content_hash ≡ hash c.content)
        × (c.target ≡ p.target)
        × (c.review_package_id ≡ p.id)
        × (c.status ≡ CommunicationStatus.queued)
  unfolding create_from_approved_review
  sent_parts id p r actor correlation clock h = ground (
    arith,
    is_text-eq-some p.approved_content_hash
        (hash (strip (content_or r.final_content p.proposed_content))),
  )

  -- What is sent for a package has the hash of the content that its review approved, and goes to
  -- the target that was reviewed; it is that content, if the hash tells the two apart.
  pub sent-eq-approved :
      (p : ReviewPackage) (d : ReviewDecision) (final : Option Text) (expected : ℕ)
      (p' : ReviewPackage) (content : Text) (id : ℕ) (r : ReviewRecord) (actor correlation : Text)
      (clock : ℕ) (c : Communication)
      → apply_review hash p d final expected ≡ ok (p', some content)
      → create_from_approved_review hash id p' r actor correlation clock ≡ ok c
      → (hash c.content ≡ hash content → c.content ≡ content)
      → (c.content ≡ content) × (c.content_hash ≡ hash content) × (c.target ≡ p.target)
  sent-eq-approved p d final expected p' content id r actor correlation clock c reviewed sent
        apart =
      let (_, hashed, _, _, _, aimed, _) = approved_parts p d final expected reviewed in
      let (_, _, kept, digest, same, _, _) = sent_parts id p' r actor correlation clock sent in
      let e : hash c.content ≡ hash content = cc in (apart e, digest ∙ e, same ∙ aimed)

  sending :
      (p : ReviewPackage) (r : ReviewRecord) (content : Text) (id : ℕ) (actor correlation : Text)
      (clock : ℕ)
      → p.status ≡ ReviewPackageStatus.approved
      → p.approved_content_hash ≡ some (hash content)
      → approves r.decision ≡ true
      → strip (content_or r.final_content p.proposed_content) ≡ content
      → (c : Communication) × (create_from_approved_review hash id p r actor correlation clock
          ≡ ok c)
        × (c.content ≡ content)
  unfolding create_from_approved_review
  sending p r content id actor correlation clock s k a e =
      let same : text_beq (hash content) (hash content) ≡ true = eq_self (hash content) in
      elim (Result-cases (create_from_approved_review hash id p r actor correlation clock)) [
        | inl (c, made) ↦ (c, made, ground (arith, same))
        | inr (x, failed) ↦ absurd (ground (arith, same))
      ]

  -- After an approving review, the record that keeps the approved content can be sent, and what is
  -- sent is that content.
  pub approved_is_sendable :
      (p : ReviewPackage) (d : ReviewDecision) (final : Option Text) (expected : ℕ)
      (p' : ReviewPackage) (content : Text) (id : ℕ) (r : ReviewRecord) (actor correlation : Text)
      (clock : ℕ)
      → apply_review hash p d final expected ≡ ok (p', some content)
      → r.decision ≡ d
      → r.final_content ≡ some content
      → (c : Communication) × (create_from_approved_review hash id p' r actor correlation clock
          ≡ ok c)
        × (c.content ≡ content)
  approved_is_sendable p d final expected p' content id r actor correlation clock reviewed same
        kept =
      let (s, k, e, filled, a, _, _) = approved_parts p d final expected reviewed in
      let stripped : strip content ≡ content =
        ap strip e ∙ strip-strip (content_or final p.proposed_content) ∙ sym e in
      sending p' r content id actor correlation clock s k (rw same a) (ground arith)

  -- A record whose content has another hash than the approved one is refused.
  pub tampered_refused :
      (p : ReviewPackage) (r : ReviewRecord) (id : ℕ) (actor correlation : Text) (clock : ℕ)
      → p.approved_content_hash
        ≢ some (hash (strip (content_or r.final_content p.proposed_content)))
      → create_from_approved_review hash id p r actor correlation clock
        ≡ err invalid_state_transition
  unfolding create_from_approved_review
  tampered_refused p r id actor correlation clock d = ground (
    arith,
    is_text-eq-some p.approved_content_hash
        (hash (strip (content_or r.final_content p.proposed_content))),
  )

  -- A call that approves the content with a digest.
  abbrev pub IsApproval : ReviewPackage → Call → Text → Type 0
  IsApproval p (submitting expected clock) digest = ⊥
  IsApproval p (reviewing d final expected) digest =
      (approves d ≡ true) × (digest ≡ hash (strip (content_or final p.proposed_content)))

  -- One of a list of calls, made one after another, does.
  abbrev pub HasApproval : ReviewPackage → List Call → Text → Type 0
  HasApproval p [] digest = ⊥
  HasApproval p (c ∷ cs) digest =
      IsApproval p c digest ⊎ HasApproval (after p (perform hash p c)) cs digest

  -- A call on a package with no hash leaves none, or approves and leaves the package approved.
  approval :
      (p : ReviewPackage) (c : Call) (digest : Text)
      → p.approved_content_hash ≡ none
      → ((after p (perform hash p c)).approved_content_hash ≡ none)
        ⊎ (((after p (perform hash p c)).status ≡ ReviewPackageStatus.approved)
            × ((after p (perform hash p c)).approved_content_hash ≡ some digest
                → IsApproval p c digest))
  unfolding perform submit apply_review
  approval p (submitting expected clock) digest n = inl (ground arith)
  approval p (reviewing approve final expected) digest n = ground arith
  approval p (reviewing ReviewDecision.approve_with_edits final expected) digest n = ground arith
  approval p (reviewing reject final expected) digest n = inl (ground arith)
  approval p (reviewing ask_information final expected) digest n = inl (ground arith)

  run-HasApproval :
      (p : ReviewPackage) (cs : List Call) (digest : Text)
      → p.approved_content_hash ≡ none
      → (run hash p cs).approved_content_hash ≡ some digest
      → HasApproval p cs digest
  unfolding run
  run-HasApproval p [] digest n h = absurd (ground arith)
  run-HasApproval p (c ∷ cs) digest n h = elim (approval p c digest n) [
    | inl n' ↦ inr (run-HasApproval (after p (perform hash p c)) cs digest n' h)
    | inr (s, approves_it) ↦ inl (
        approves_it
          (rw (run_settled hash (after p (perform hash p c)) cs (λ e. cc) (λ e. cc)) at h))
  ]

  created-unhashed :
      (render : Value → Text) (id : ℕ) (n : NewPackage) {p : ReviewPackage}
      → create render id n ≡ ok p
      → p.approved_content_hash ≡ none
  unfolding create
  created-unhashed render id n h = ground arith

  -- Whatever is sent for a package that was created and then submitted and reviewed in any way was
  -- approved: one of the calls is an approving review of content with the hash of what is sent.
  pub sent-HasApproval :
      (render : Value → Text) (id : ℕ) (n : NewPackage) (p : ReviewPackage) (cs : List Call)
      (sent_id : ℕ) (r : ReviewRecord) (actor correlation : Text) (clock : ℕ) (c : Communication)
      → create render id n ≡ ok p
      → create_from_approved_review hash sent_id (run hash p cs) r actor correlation clock ≡ ok c
      → HasApproval p cs c.content_hash
  sent-HasApproval render id n p cs sent_id r actor correlation clock c made sent =
      let (_, _, kept, digest, _, _, _) =
        sent_parts sent_id (run hash p cs) r actor correlation clock sent in
      run-HasApproval p cs c.content_hash (created-unhashed render id n made) (cc)
