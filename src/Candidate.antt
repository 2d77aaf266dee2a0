-- ===== src/Candidate.antt =====
-- domain/candidates.py: MessageCandidate, with its enums of domain/enums.py.
-- `clock` is what utc_now reads, `id` is what uuid4 returns. A confidence is the bit pattern of its
-- float.
pub mod Enums
pub mod Decisions
mod Examples
use legal_workbench.Prelude.{
  ℕ, ◌+◌, ◌^◌, ◌≡◌, refl, Bool, true, false, not, ◌&&◌, ◌||◌, Option, none, some, List, [], ◌∷◌,
  Text, strip, strip_or_none, is_empty, is_falsy, DateTime, utc_now, Result, ok, err, ◌>>=◌, ◌>>◌,
  raise_if, domain_validation, entity_version_conflict, invalid_state_transition, eq, ◌==◌, leb,
  if◌then◌else◌, contains, nat_eq,
}
use legal_workbench.Prelude.Values.{Dict}
use legal_workbench.Candidate.Enums.{
  CandidateStatus, pending_analysis, pending_confirmation, confirmed, linked, information_only,
  ignored, rejected, CandidateResolutionAction, LegalRelevance, relevant, possibly_relevant,
  MessageRole, RecommendedAction, candidate_status_eq, relevance_eq,
}

pub record MessageCandidate : Type 0 where
  pub id : ℕ
  pub context_snapshot_id : ℕ
  pub status : CandidateStatus
  pub legal_relevance : LegalRelevance
  pub message_role : MessageRole
  pub recommended_action : RecommendedAction
  pub confidence : ℕ
  pub title_proposal : Option Text
  pub category_proposals : List Dict
  pub deadline_proposals : List Dict
  pub related_matter_proposals : List Dict
  pub evidence_refs : List Text
  pub agent_run_id : Option ℕ
  pub feishu_message_id : Option ℕ
  pub requires_manual_review : Bool
  pub analysis_payload : Dict
  pub confirmed_by : Option Text
  pub confirmed_at : Option DateTime
  pub version : ℕ

-- `0 <= x <= 1` on IEEE 754 doubles: the patterns from that of 0 to that of 1, and that of -0. The
-- pattern of a NaN is above that of 1.
unfoldable pub in_unit_interval : ℕ → Bool
in_unit_interval bits = leb bits 0x3ff0000000000000 || bits == 0x8000000000000000

-- `status in {PENDING_ANALYSIS, PENDING_CONFIRMATION}`
abbrev pub is_pending : CandidateStatus → Bool
is_pending s = contains (pending_analysis ∷ pending_confirmation ∷ []) s

-- The arguments of MessageCandidate.create.
pub record NewCandidate : Type 0 where
  pub context_snapshot_id : ℕ
  pub status : CandidateStatus
  pub legal_relevance : LegalRelevance
  pub message_role : MessageRole
  pub recommended_action : RecommendedAction
  pub confidence : ℕ
  pub title_proposal : Option Text
  pub category_proposals : List Dict
  pub deadline_proposals : List Dict
  pub related_matter_proposals : List Dict
  pub evidence_refs : List Text
  pub agent_run_id : Option ℕ

-- `value or None`
abbrev text_or_none : Option Text → Option Text
text_or_none none = none
text_or_none (some t) = if is_empty t then none else some t

unfoldable pub create : ℕ → NewCandidate → Result MessageCandidate
unfolding in_unit_interval
create id n = do
  raise_if (not (is_pending n.status)) domain_validation
  raise_if (not (in_unit_interval n.confidence)) domain_validation
  ok (record {
    id = id;
    context_snapshot_id = n.context_snapshot_id;
    status = n.status;
    legal_relevance = n.legal_relevance;
    message_role = n.message_role;
    recommended_action = n.recommended_action;
    confidence = n.confidence;
    title_proposal = text_or_none (strip_or_none n.title_proposal);
    category_proposals = n.category_proposals;
    deadline_proposals = n.deadline_proposals;
    related_matter_proposals = n.related_matter_proposals;
    evidence_refs = n.evidence_refs;
    agent_run_id = n.agent_run_id;
    feishu_message_id = none;
    requires_manual_review = true;
    analysis_payload = [];
    confirmed_by = none;
    confirmed_at = none;
    version = 1;
  })

unfoldable pub confirm_create_matter :
    MessageCandidate → (actor_id : Text) → (expected_version clock : ℕ) → Result MessageCandidate
confirm_create_matter c actor_id expected_version clock = do
  raise_if (not (eq c.version expected_version)) entity_version_conflict
  raise_if (not (is_pending c.status)) invalid_state_transition
  raise_if (not (contains (relevant ∷ possibly_relevant ∷ []) c.legal_relevance))
      invalid_state_transition
  ok (record c {
    status = confirmed;
    confirmed_by = some actor_id;
    confirmed_at = some (utc_now clock);
  })

-- The dictionary of resolve.
abbrev pub resolved_status : CandidateResolutionAction → CandidateStatus
resolved_status CandidateResolutionAction.link_existing = linked
resolved_status CandidateResolutionAction.update_existing = linked
resolved_status CandidateResolutionAction.information_only = information_only
resolved_status CandidateResolutionAction.ignore = ignored

unfoldable pub resolve :
    MessageCandidate
    → CandidateResolutionAction
    → (actor_id : Text) → (expected_version clock : ℕ) → Result MessageCandidate
resolve c action actor_id expected_version clock = do
  raise_if (not (eq c.version expected_version)) entity_version_conflict
  raise_if (not (is_pending c.status)) invalid_state_transition
  ok (record c {
    status = resolved_status action;
    confirmed_by = some actor_id;
    confirmed_at = some (utc_now clock);
    version = c.version + 1;
  })

-- The arguments of replace_pending_analysis.
pub record Analysis : Type 0 where
  pub context_snapshot_id : ℕ
  pub legal_relevance : LegalRelevance
  pub message_role : MessageRole
  pub recommended_action : RecommendedAction
  pub confidence : ℕ
  pub title_proposal : Option Text
  pub category_proposals : List Dict
  pub deadline_proposals : List Dict
  pub evidence_refs : List Text
  pub agent_run_id : ℕ
  pub requires_manual_review : Bool
  pub analysis_payload : Dict

unfoldable pub replace_pending_analysis : MessageCandidate → Analysis → Result MessageCandidate
unfolding in_unit_interval
replace_pending_analysis c a = do
  raise_if (not (is_pending c.status)) invalid_state_transition
  raise_if (not (in_unit_interval a.confidence)) domain_validation
  ok (record c {
    context_snapshot_id = a.context_snapshot_id;
    status = pending_confirmation;
    legal_relevance = a.legal_relevance;
    message_role = a.message_role;
    recommended_action = a.recommended_action;
    confidence = a.confidence;
    title_proposal = strip_or_none a.title_proposal;
    category_proposals = a.category_proposals;
    deadline_proposals = a.deadline_proposals;
    evidence_refs = a.evidence_refs;
    agent_run_id = some a.agent_run_id;
    requires_manual_review = a.requires_manual_review;
    analysis_payload = a.analysis_payload;
    version = c.version + 1;
  })

unfoldable pub reject_superseded_analysis : MessageCandidate → Result MessageCandidate
reject_superseded_analysis c = do
  raise_if (not (is_pending c.status)) invalid_state_transition
  ok (record c { status = rejected; version = c.version + 1 })
