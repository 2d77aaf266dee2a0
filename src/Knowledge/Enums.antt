-- ===== src/Knowledge/Enums.antt =====
-- The enums of domain/enums.py that knowledge documents use. `==` on an enum compares positions.
use legal_workbench.Prelude.{ℕ, ◌≡◌, ◌↔◌, Bool, true, Eq, ◌==◌, arith, Text, text}

pub data AuthorityType : Type 0 where
  unknown law administrative_regulation judicial_interpretation : AuthorityType
  department_rule local_regulation local_government_rule normative_document : AuthorityType
  guiding_case court_case regulatory_guidance contract : AuthorityType
  company_policy business_rule legal_opinion internal_precedent : AuthorityType

pub data AuthorityRole : Type 0 where
  formal_legal_basis persuasive_authority contractual_basis internal_basis : AuthorityRole
  strategy_reference : AuthorityRole

pub data AuthorityStatus : Type 0 where
  effective superseded repealed unknown : AuthorityStatus

pub data KnowledgeMetadataStatus : Type 0 where
  ready pending_metadata : KnowledgeMetadataStatus

abbrev authority_type_index : AuthorityType → ℕ
authority_type_index AuthorityType.unknown = 0
authority_type_index AuthorityType.law = 1
authority_type_index AuthorityType.administrative_regulation = 2
authority_type_index AuthorityType.judicial_interpretation = 3
authority_type_index AuthorityType.department_rule = 4
authority_type_index AuthorityType.local_regulation = 5
authority_type_index AuthorityType.local_government_rule = 6
authority_type_index AuthorityType.normative_document = 7
authority_type_index AuthorityType.guiding_case = 8
authority_type_index AuthorityType.court_case = 9
authority_type_index AuthorityType.regulatory_guidance = 10
authority_type_index AuthorityType.contract = 11
authority_type_index AuthorityType.company_policy = 12
authority_type_index AuthorityType.business_rule = 13
authority_type_index AuthorityType.legal_opinion = 14
authority_type_index AuthorityType.internal_precedent = 15

abbrev authority_type_beq : AuthorityType → AuthorityType → Bool
authority_type_beq a b = authority_type_index a == authority_type_index b

pub authority_type_beq_iff : (a b : AuthorityType) → (authority_type_beq a b ≡ true) ↔ (a ≡ b)
authority_type_beq_iff a b = (λ h. ground arith, λ h. ground arith)

instance abbrev pub authority_type_eq : Eq AuthorityType
authority_type_eq = record { beq = authority_type_beq; beq_iff = authority_type_beq_iff }

abbrev authority_role_index : AuthorityRole → ℕ
authority_role_index AuthorityRole.formal_legal_basis = 0
authority_role_index AuthorityRole.persuasive_authority = 1
authority_role_index AuthorityRole.contractual_basis = 2
authority_role_index AuthorityRole.internal_basis = 3
authority_role_index AuthorityRole.strategy_reference = 4

abbrev authority_role_beq : AuthorityRole → AuthorityRole → Bool
authority_role_beq a b = authority_role_index a == authority_role_index b

pub authority_role_beq_iff : (a b : AuthorityRole) → (authority_role_beq a b ≡ true) ↔ (a ≡ b)
authority_role_beq_iff a b = (λ h. ground arith, λ h. ground arith)

instance abbrev pub authority_role_eq : Eq AuthorityRole
authority_role_eq = record { beq = authority_role_beq; beq_iff = authority_role_beq_iff }

abbrev authority_status_index : AuthorityStatus → ℕ
authority_status_index AuthorityStatus.effective = 0
authority_status_index AuthorityStatus.superseded = 1
authority_status_index AuthorityStatus.repealed = 2
authority_status_index AuthorityStatus.unknown = 3

abbrev authority_status_beq : AuthorityStatus → AuthorityStatus → Bool
authority_status_beq a b = authority_status_index a == authority_status_index b

pub authority_status_beq_iff : (a b : AuthorityStatus) → (authority_status_beq a b ≡ true) ↔ (a ≡ b)
authority_status_beq_iff a b = (λ h. ground arith, λ h. ground arith)

instance abbrev pub authority_status_eq : Eq AuthorityStatus
authority_status_eq = record { beq = authority_status_beq; beq_iff = authority_status_beq_iff }

abbrev metadata_status_index : KnowledgeMetadataStatus → ℕ
metadata_status_index KnowledgeMetadataStatus.ready = 0
metadata_status_index KnowledgeMetadataStatus.pending_metadata = 1

abbrev metadata_status_beq : KnowledgeMetadataStatus → KnowledgeMetadataStatus → Bool
metadata_status_beq a b = metadata_status_index a == metadata_status_index b

pub metadata_status_beq_iff :
    (a b : KnowledgeMetadataStatus) → (metadata_status_beq a b ≡ true) ↔ (a ≡ b)
metadata_status_beq_iff a b = (λ h. ground arith, λ h. ground arith)

instance abbrev pub metadata_status_eq : Eq KnowledgeMetadataStatus
metadata_status_eq = record { beq = metadata_status_beq; beq_iff = metadata_status_beq_iff }

-- `authority_type.value`
abbrev pub type_value : AuthorityType → Text
type_value AuthorityType.unknown = text "unknown"
type_value AuthorityType.law = text "law"
type_value AuthorityType.administrative_regulation = text "administrative_regulation"
type_value AuthorityType.judicial_interpretation = text "judicial_interpretation"
type_value AuthorityType.department_rule = text "department_rule"
type_value AuthorityType.local_regulation = text "local_regulation"
type_value AuthorityType.local_government_rule = text "local_government_rule"
type_value AuthorityType.normative_document = text "normative_document"
type_value AuthorityType.guiding_case = text "guiding_case"
type_value AuthorityType.court_case = text "court_case"
type_value AuthorityType.regulatory_guidance = text "regulatory_guidance"
type_value AuthorityType.contract = text "contract"
type_value AuthorityType.company_policy = text "company_policy"
type_value AuthorityType.business_rule = text "business_rule"
type_value AuthorityType.legal_opinion = text "legal_opinion"
type_value AuthorityType.internal_precedent = text "internal_precedent"
