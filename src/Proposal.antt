-- ===== src/Proposal.antt =====
-- domain/matters.py: MatterUpdateProposal. A dictionary is the list of its entries, and
-- `proposed_changes` has dictionaries as values, as its type says.
-- `clock` is what utc_now reads, `id` is what uuid4 returns.
pub mod Enums
pub mod Decisions
mod Examples
use legal_workbench.Prelude.{
  ℕ, zero, suc, ◌+◌, ◌-◌, ◌*◌, ◌≤◌, ◌<◌, map, ◌≡◌, ◌≢◌, refl, sym, ap, ◌∙◌, Bool, true, false, not,
  ◌&&◌, ◌||◌, Option, none, some, List, [], ◌∷◌, ◌++◌, Text, text, is_blank, strip, is_falsy,
  is_text, is_text-eq-some, is_empty, DateTime, utc_now, now_or, require_aware, require_aware?,
  dt_le, Result, ok, err, ◌>>=◌, ◌>>◌, raise_if, domain_validation, entity_version_conflict,
  invalid_state_transition, key_error, type_error, eq, ◌==◌, leb, ltb, if◌then◌else◌, contains,
  nat_eq, text_eq, after, succeeds, Result-cases, inl, inr, arith, is_some, is_none, Bool-cases,
  ◌↔◌, length, any, all, keep, distinct, strip_or_none, All-map, all-All, take, drop, ◌/◌, ◌^◌,
  sort_by, value_error, All, ok_of_succeeds, text_beq_iff, ==_iff,
}
use legal_workbench.Prelude.Values.{Value, null, str, Dict}
use legal_workbench.Proposal.Enums.{
  MatterUpdateProposalStatus, pending, approved, partially_approved, rejected, superseded,
  ProposalFieldDecisionType, approve, reject, proposal_status_eq,
}

pub record ProposalFieldDecision : Type 0 where
  pub field_name : Text
  pub decision : ProposalFieldDecisionType
  pub final_value : Value

abbrev pub allowed_fields : List Text
allowed_fields =
    text "title"
    ∷ text "category"
    ∷ text "priority"
    ∷ text "deadline"
    ∷ text "owner"
    ∷ text "currentStatus"
    ∷ text "nextAction"
    ∷ text "newWorkItems"
    ∷ []

pub record MatterUpdateProposal : Type 0 where
  pub id : ℕ
  pub candidate_id : ℕ
  pub matter_id : ℕ
  pub base_matter_version : ℕ
  pub proposed_changes : List (Text × Dict)
  pub reason : Text
  pub status : MatterUpdateProposalStatus
  pub created_by : Text
  pub final_changes : Dict
  pub field_decisions : List Dict
  pub reviewed_by : Option Text
  pub reviewed_at : Option DateTime
  pub rejection_reason : Option Text
  pub created_at : DateTime
  pub version : ℕ

abbrev pub keys {ℓ} : {A : Type ℓ} → List (Text × A) → List Text
keys [] = []
keys ((k, v) ∷ d) = k ∷ keys d

-- `set(xs) <= set(ys)`
abbrev pub subset : List Text → List Text → Bool
subset [] ys = true
subset (x ∷ xs) ys = contains ys x && subset xs ys

-- `set(xs) == set(ys)`
abbrev pub same_set : List Text → List Text → Bool
same_set xs ys = subset xs ys && subset ys xs

abbrev pub required_value_keys : List Text
required_value_keys =
    text "currentValue" ∷ text "messageExtractedValue" ∷ text "aiSuggestedValue" ∷ []

-- `all(set(values) == required_value_keys for values in proposed_changes.values())`
unfoldable pub well_keyed : List (Text × Dict) → Bool
well_keyed [] = true
well_keyed ((k, values) ∷ d) = same_set (keys values) required_value_keys && well_keyed d

unfoldable pub create :
    (id candidate_id matter_id base_matter_version : ℕ)
    → List (Text × Dict)
    → (reason created_by : Text) → (clock : ℕ) → Result MatterUpdateProposal
create id candidate_id matter_id base_matter_version proposed_changes reason created_by clock = do
  raise_if (not (subset (keys proposed_changes) allowed_fields)) domain_validation
  raise_if (is_empty proposed_changes) domain_validation
  raise_if (not (well_keyed proposed_changes)) domain_validation
  raise_if (is_blank reason || is_blank created_by) domain_validation
  ok (record {
    id = id;
    candidate_id = candidate_id;
    matter_id = matter_id;
    base_matter_version = base_matter_version;
    proposed_changes = proposed_changes;
    reason = strip reason;
    status = pending;
    created_by = strip created_by;
    final_changes = [];
    field_decisions = [];
    reviewed_by = none;
    reviewed_at = none;
    rejection_reason = none;
    created_at = utc_now clock;
    version = 1;
  })

-- `[item.field_name for item in decisions]`
abbrev pub field_names : List ProposalFieldDecision → List Text
field_names [] = []
field_names (x ∷ xs) = x.field_name ∷ field_names xs

abbrev pub is_approve : ProposalFieldDecisionType → Bool
is_approve approve = true
is_approve reject = false

-- `item.decision == APPROVE`
abbrev pub approves : ProposalFieldDecision → Bool
approves x = is_approve x.decision

-- The dictionary of the approved fields. The field names differ, as `review` checks.
unfoldable pub approved_changes : List ProposalFieldDecision → Dict
approved_changes [] = []
approved_changes (x ∷ xs) =
    let rest = approved_changes xs in
    if approves x then (x.field_name, x.final_value) ∷ rest else rest

abbrev pub is_null : Value → Bool
is_null null = true
is_null _ = false

-- `any(value is None for value in approved.values())`
unfoldable pub has_null : Dict → Bool
has_null [] = false
has_null ((k, v) ∷ d) = is_null v || has_null d

abbrev pub decision_value : ProposalFieldDecisionType → Text
decision_value approve = text "approve"
decision_value reject = text "reject"

abbrev pub field_decision : ProposalFieldDecision → Dict
field_decision x =
    (text "fieldName", str x.field_name)
    ∷ (text "decision", str (decision_value x.decision))
    ∷ (text "finalValue", x.final_value)
    ∷ []

-- The status that a review gives.
abbrev pub reviewed_status :
    (count proposed : ℕ) → (all_approve : Bool) → MatterUpdateProposalStatus
reviewed_status count proposed all_approve =
    if count == 0
    then rejected
    else if count == proposed && all_approve
    then approved
    else partially_approved

-- The reviewed proposal, and the approved changes that the method returns.
unfoldable pub review :
    MatterUpdateProposal
    → List ProposalFieldDecision
    → (reviewer_id : Text) → (rejection_reason : Option Text) → (expected_version clock : ℕ)
    → Result (MatterUpdateProposal × Dict)
review p decisions reviewer_id rejection_reason expected_version clock = do
  raise_if (not (eq p.version expected_version)) entity_version_conflict
  raise_if (not (eq p.status pending)) invalid_state_transition
  raise_if (not (distinct (field_names decisions))) domain_validation
  raise_if (not (subset (field_names decisions) (keys p.proposed_changes))) domain_validation
  raise_if
      (not (is_empty decisions) && not (same_set (field_names decisions) (keys p.proposed_changes)))
      domain_validation
  let changes = approved_changes decisions
  raise_if (has_null changes) domain_validation
  let rejection = strip_or_none rejection_reason
  raise_if (is_blank reviewer_id) domain_validation
  raise_if (length changes == 0 && is_falsy rejection) domain_validation
  ok (
    record p {
      status =
          reviewed_status (length changes) (length p.proposed_changes) (all approves decisions);
      final_changes = changes;
      field_decisions = map field_decision decisions;
      reviewed_by = some (strip reviewer_id);
      reviewed_at = some (utc_now clock);
      rejection_reason = rejection;
      version = p.version + 1;
    },
    changes,
  )

unfoldable pub supersede :
    MatterUpdateProposal → (expected_version : ℕ) → Result MatterUpdateProposal
supersede p expected_version = do
  raise_if (not (eq p.version expected_version)) entity_version_conflict
  raise_if (not (eq p.status pending)) invalid_state_transition
  ok (record p { status = superseded; version = p.version + 1 })
