-- ===== src/Knowledge.antt =====
-- domain/knowledge.py: KnowledgeDocument, KnowledgeChunk and the records of a search.
-- A date is its day number, a score is the bit pattern of its float.
pub mod Enums
pub mod Update
mod Examples
use legal_workbench.Prelude.{
  ℕ, zero, suc, ◌+◌, ◌-◌, ◌*◌, ◌≤◌, ◌<◌, ◌≡◌, ◌≢◌, refl, sym, ap, ◌∙◌, Bool, true, false, not, ◌&&◌,
  ◌||◌, Option, none, some, List, [], ◌∷◌, ◌++◌, Text, text, is_blank, strip, is_falsy, is_text,
  is_text-eq-some, is_empty, DateTime, utc_now, now_or, require_aware, require_aware?, dt_le,
  Result, ok, err, ◌>>=◌, ◌>>◌, raise_if, domain_validation, entity_version_conflict,
  invalid_state_transition, key_error, type_error, eq, ◌==◌, leb, ltb, if◌then◌else◌, contains,
  nat_eq, text_eq, after, succeeds, Result-cases, inl, inr, arith, is_some, is_none, Bool-cases,
  ◌↔◌, length, All, ok_of_succeeds, text_beq_iff, ==_iff,
}
use legal_workbench.Prelude.Int.{ℤ, pos, negsuc, ltb_ℤ}
use legal_workbench.Knowledge.Enums.{
  AuthorityType, AuthorityRole, AuthorityStatus, KnowledgeMetadataStatus, type_value,
  authority_type_eq, authority_role_eq, authority_status_eq, metadata_status_eq,
}

unfoldable pub authority_role_for_type : AuthorityType → Option AuthorityRole
authority_role_for_type AuthorityType.unknown = none
authority_role_for_type AuthorityType.law = some AuthorityRole.formal_legal_basis
authority_role_for_type AuthorityType.administrative_regulation =
    some AuthorityRole.formal_legal_basis
authority_role_for_type AuthorityType.judicial_interpretation =
    some AuthorityRole.formal_legal_basis
authority_role_for_type AuthorityType.department_rule = some AuthorityRole.formal_legal_basis
authority_role_for_type AuthorityType.local_regulation = some AuthorityRole.formal_legal_basis
authority_role_for_type AuthorityType.local_government_rule = some AuthorityRole.formal_legal_basis
authority_role_for_type AuthorityType.normative_document = some AuthorityRole.formal_legal_basis
authority_role_for_type AuthorityType.guiding_case = some AuthorityRole.persuasive_authority
authority_role_for_type AuthorityType.court_case = some AuthorityRole.persuasive_authority
authority_role_for_type AuthorityType.regulatory_guidance = some AuthorityRole.persuasive_authority
authority_role_for_type AuthorityType.contract = some AuthorityRole.contractual_basis
authority_role_for_type AuthorityType.company_policy = some AuthorityRole.internal_basis
authority_role_for_type AuthorityType.business_rule = some AuthorityRole.internal_basis
authority_role_for_type AuthorityType.legal_opinion = some AuthorityRole.strategy_reference
authority_role_for_type AuthorityType.internal_precedent = some AuthorityRole.strategy_reference

-- `a == b` on optional roles.
abbrev pub same_role : Option AuthorityRole → Option AuthorityRole → Bool
same_role none none = true
same_role (some a) (some b) = eq a b
same_role _ _ = false

unfoldable pub role_priority : Option AuthorityRole → ℕ
role_priority (some AuthorityRole.formal_legal_basis) = 100
role_priority (some AuthorityRole.persuasive_authority) = 80
role_priority (some AuthorityRole.contractual_basis) = 80
role_priority (some AuthorityRole.internal_basis) = 60
role_priority (some AuthorityRole.strategy_reference) = 40
role_priority none = 20

unfoldable pub authority_priority_for_type : AuthorityType → ℕ
authority_priority_for_type t = role_priority (authority_role_for_type t)

pub record KnowledgeDocument : Type 0 where
  pub id : ℕ
  pub source_type : Text
  pub source_id : Text
  pub title : Text
  pub document_type : Text
  pub agent_types : List Text
  pub matter_types : List Text
  pub jurisdiction : Text
  pub source_priority : ℤ
  pub internal_precedent : Bool
  pub confidentiality : Text
  pub document_version_id : Option ℕ
  pub matter_id : Option ℕ
  pub effective_from : Option ℕ
  pub effective_to : Option ℕ
  pub status : Text
  pub approved_by : Option Text
  pub authority_type : AuthorityType
  pub authority_role : Option AuthorityRole
  pub authority_status : AuthorityStatus
  pub metadata_status : KnowledgeMetadataStatus
  pub issuer : Option Text
  pub document_number : Option Text
  pub enabled : Bool
  pub created_at : DateTime
  pub updated_at : DateTime
  pub version : ℕ

-- `effective_from and effective_to and effective_to < effective_from`
abbrev pub bad_dates : Option ℕ → Option ℕ → Bool
bad_dates (some from) (some to) = ltb to from
bad_dates _ _ = false

-- The tests of authority type, role and metadata status.
abbrev pub bad_authority : AuthorityType → Option AuthorityRole → KnowledgeMetadataStatus → Bool
bad_authority t role status =
    if eq t AuthorityType.unknown
    then is_some role || not (eq status KnowledgeMetadataStatus.pending_metadata)
    else not (same_role role (authority_role_for_type t))

-- `__post_init__`
unfoldable pub validated : KnowledgeDocument → Result KnowledgeDocument
validated d = do
  raise_if (is_blank d.source_type || is_blank d.source_id || is_blank d.title) domain_validation
  raise_if (ltb_ℤ d.source_priority (pos 0) || ltb_ℤ (pos 100) d.source_priority) domain_validation
  raise_if (bad_dates d.effective_from d.effective_to) domain_validation
  raise_if (bad_authority d.authority_type d.authority_role d.metadata_status) domain_validation
  ok d

-- `effective_from is not None and on_date < effective_from`
abbrev pub starts_after : Option ℕ → ℕ → Bool
starts_after none on_date = false
starts_after (some from) on_date = ltb on_date from

-- `effective_to is None or on_date <= effective_to`
abbrev pub lasts_to : Option ℕ → ℕ → Bool
lasts_to none on_date = true
lasts_to (some to) on_date = leb on_date to

unfoldable pub is_current_formal_legal_basis : KnowledgeDocument → (on_date : ℕ) → Bool
is_current_formal_legal_basis d on_date =
    if not d.enabled
      || not (same_role d.authority_role (some AuthorityRole.formal_legal_basis))
      || not (eq d.authority_status AuthorityStatus.effective)
    then false
    else if starts_after d.effective_from on_date
    then false
    else lasts_to d.effective_to on_date

-- The arguments of update_metadata.
pub record Metadata : Type 0 where
  pub title : Text
  pub authority_type : AuthorityType
  pub authority_role : Option AuthorityRole
  pub authority_status : AuthorityStatus
  pub jurisdiction : Text
  pub effective_from : Option ℕ
  pub effective_to : Option ℕ
  pub issuer : Option Text
  pub document_number : Option Text
  pub enabled : Bool

-- `value.strip() if value and value.strip() else None`
abbrev pub stripped_or_none : Option Text → Option Text
stripped_or_none none = none
stripped_or_none (some t) = if is_blank t then none else some (strip t)

unfoldable pub update_metadata :
    KnowledgeDocument → (expected_version : ℕ) → Metadata → (clock : ℕ) → Result KnowledgeDocument
update_metadata d expected_version m clock = do
  raise_if (not (eq d.version expected_version)) entity_version_conflict
  raise_if (is_blank m.title || is_blank m.jurisdiction) domain_validation
  raise_if (bad_dates m.effective_from m.effective_to) domain_validation
  let expected_role = authority_role_for_type m.authority_type
  let is_unknown = eq m.authority_type AuthorityType.unknown
  raise_if (not (same_role m.authority_role expected_role)) domain_validation
  raise_if (is_unknown && not (eq m.authority_status AuthorityStatus.unknown)) domain_validation
  ok (record d {
    title = strip m.title;
    authority_type = m.authority_type;
    authority_role = expected_role;
    authority_status = m.authority_status;
    metadata_status =
        if is_unknown
        then KnowledgeMetadataStatus.pending_metadata
        else KnowledgeMetadataStatus.ready;
    document_type = type_value m.authority_type;
    source_priority = pos (authority_priority_for_type m.authority_type);
    jurisdiction = strip m.jurisdiction;
    effective_from = m.effective_from;
    effective_to = m.effective_to;
    issuer = stripped_or_none m.issuer;
    document_number = stripped_or_none m.document_number;
    enabled = m.enabled;
    internal_precedent = eq m.authority_type AuthorityType.internal_precedent;
    updated_at = utc_now clock;
    version = d.version + 1;
  })

pub record KnowledgeChunk : Type 0 where
  pub id : ℕ
  pub knowledge_document_id : ℕ
  pub sequence : ℕ
  pub locator : Text
  pub text : Text
  pub normalized_text : Text
  pub text_hash : Text
  pub document_segment_id : Option ℕ
  pub estimated_token_count : ℕ
  pub token_estimator : Text
  pub token_count_estimated : Bool
  pub created_at : DateTime

pub record KnowledgeSearchResult : Type 0 where
  pub document : KnowledgeDocument
  pub chunk : KnowledgeChunk
  pub source_ref : Text
  pub score : ℕ
  pub component_scores : List (Text × ℕ)
