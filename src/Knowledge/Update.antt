-- ===== src/Knowledge/Update.antt =====
-- What updating the metadata of a document keeps.
use legal_workbench.Prelude.{
  ℕ, ◌+◌, ◌≤◌, ◌≡◌, refl, ap, ◌∙◌, true, false, ◌||◌, Option, none, some, List, [], ◌∷◌, Text,
  is_blank, is_empty, ok, eq, if◌then◌else◌, contains, nat_eq, text_eq, arith, ◌↔◌,
}
use legal_workbench.Prelude.{strip, strip-strip}
use legal_workbench.Prelude.Int.{pos, ltb_ℤ}
use legal_workbench.Knowledge.Enums.{
  AuthorityType, AuthorityRole, AuthorityStatus, KnowledgeMetadataStatus, authority_type_eq,
  authority_role_eq, authority_status_eq, metadata_status_eq, authority_status_beq_iff,
}
use legal_workbench.Knowledge.{
  KnowledgeDocument, Metadata, validated, update_metadata, is_current_formal_legal_basis,
  authority_role_for_type, authority_priority_for_type, role_priority, same_role, bad_dates,
  bad_authority,
}

role_priority-le_hundred : (r : Option AuthorityRole) → role_priority r ≤ 100
unfolding role_priority
role_priority-le_hundred r = ground arith

same_role_self : (r : Option AuthorityRole) → same_role r r ≡ true
same_role_self r = ground arith

authority_known :
    (t : AuthorityType)
    → bad_authority t (authority_role_for_type t) (
        if eq t AuthorityType.unknown
        then KnowledgeMetadataStatus.pending_metadata
        else KnowledgeMetadataStatus.ready)
      ≡ false
unfolding authority_role_for_type
authority_known AuthorityType.unknown = refl
authority_known _ = refl

-- The tests of `validated`, passed.
record HasValidFields (d : KnowledgeDocument) : Type 0 where
  identity : (is_blank d.source_type || is_blank d.source_id) ≡ false
  titled : is_blank d.title ≡ false
  priority : (ltb_ℤ d.source_priority (pos 0) || ltb_ℤ (pos 100) d.source_priority) ≡ false
  dates : bad_dates d.effective_from d.effective_to ≡ false
  authority : bad_authority d.authority_type d.authority_role d.metadata_status ≡ false

validated-HasValidFields : (d : KnowledgeDocument) → validated d ≡ ok d → HasValidFields d
unfolding validated
validated-HasValidFields d v = ground arith

HasValidFields-validated : (d : KnowledgeDocument) → HasValidFields d → validated d ≡ ok d
unfolding validated
HasValidFields-validated d f = ground arith

-- The tests of `update_metadata`, and the document that it makes.
record IsUpdated (d : KnowledgeDocument) (expected : ℕ) (m : Metadata) (d' : KnowledgeDocument)
    : Type 0 where
  source : (d'.source_type ≡ d.source_type) × (d'.source_id ≡ d.source_id)
  version : d'.version ≡ expected + 1
  title : (d'.title ≡ strip m.title) × (is_blank m.title ≡ false)
  priority : d'.source_priority ≡ pos (role_priority (authority_role_for_type m.authority_type))
  dates : bad_dates d'.effective_from d'.effective_to ≡ false
  kind :
      (d'.authority_type ≡ m.authority_type)
      × (d'.authority_role ≡ authority_role_for_type m.authority_type)
  status : d'.metadata_status ≡ (
      if eq m.authority_type AuthorityType.unknown
      then KnowledgeMetadataStatus.pending_metadata
      else KnowledgeMetadataStatus.ready)

update_metadata-IsUpdated :
    (d : KnowledgeDocument) (expected : ℕ) (m : Metadata) (clock : ℕ) {d' : KnowledgeDocument}
    → update_metadata d expected m clock ≡ ok d'
    → IsUpdated d expected m d'
unfolding update_metadata authority_priority_for_type
update_metadata-IsUpdated d expected m clock h = ground arith

is_blank-strip : (t u : Text) → u ≡ strip t → is_blank t ≡ false → is_blank u ≡ false
is_blank-strip t u e h = rw e (ap is_empty (strip-strip t) ∙ h)

IsUpdated-HasValidFields :
    (d : KnowledgeDocument) (expected : ℕ) (m : Metadata) (d' : KnowledgeDocument)
    → HasValidFields d
    → IsUpdated d expected m d'
    → HasValidFields d'
IsUpdated-HasValidFields d expected m d' f u = record {
  identity = rw (u.source.0, u.source.1) f.identity;
  titled = is_blank-strip m.title d'.title u.title.0 u.title.1;
  priority = ground (arith, role_priority-le_hundred (authority_role_for_type m.authority_type));
  dates = u.dates;
  authority = rw (u.kind.0, u.kind.1, u.status) (authority_known m.authority_type);
}

awaits_iff :
    (t : AuthorityType) (s : KnowledgeMetadataStatus)
    → s ≡ (
        if eq t AuthorityType.unknown
        then KnowledgeMetadataStatus.pending_metadata
        else KnowledgeMetadataStatus.ready)
    → (s ≡ KnowledgeMetadataStatus.pending_metadata) ↔ (t ≡ AuthorityType.unknown)
awaits_iff AuthorityType.unknown s e = (λ h. refl, λ h. e)
awaits_iff _ s e = (λ h. ground arith, λ h. ground arith)

-- Updating the metadata of a valid document leaves a valid document, of the next version, that
-- awaits metadata exactly if its authority type is unknown.
pub update_metadata-validated :
    (d : KnowledgeDocument) (expected : ℕ) (m : Metadata) (clock : ℕ) {d' : KnowledgeDocument}
    → validated d ≡ ok d
    → update_metadata d expected m clock ≡ ok d'
    → (validated d' ≡ ok d')
      × ((d'.version ≡ expected + 1)
          × ((d'.metadata_status ≡ KnowledgeMetadataStatus.pending_metadata)
              ↔ (d'.authority_type ≡ AuthorityType.unknown)))
update_metadata-validated d expected m clock {d'} v h =
    let u = update_metadata-IsUpdated d expected m clock h in
    let f = IsUpdated-HasValidFields d expected m d' (validated-HasValidFields d v) u in
    (
      HasValidFields-validated d' f,
      (u.version, awaits_iff d'.authority_type d'.metadata_status (rw u.kind.0 u.status)),
    )

-- A type of authority that gives formal legal basis.
unfoldable pub formal_types : List AuthorityType
formal_types =
    AuthorityType.law ∷ AuthorityType.administrative_regulation
    ∷ AuthorityType.judicial_interpretation ∷ AuthorityType.department_rule
    ∷ AuthorityType.local_regulation ∷ AuthorityType.local_government_rule
    ∷ AuthorityType.normative_document ∷ []

bad_authority-role :
    (t : AuthorityType) (r : Option AuthorityRole) (status : KnowledgeMetadataStatus)
    → bad_authority t r status ≡ false
    → same_role r (some AuthorityRole.formal_legal_basis) ≡ contains formal_types t
unfolding authority_role_for_type formal_types
bad_authority-role AuthorityType.unknown r status h = ground arith
bad_authority-role _ r status h = ground arith

validated-bad_authority :
    (d : KnowledgeDocument)
    → validated d ≡ ok d
    → bad_authority d.authority_type d.authority_role d.metadata_status ≡ false
unfolding validated
validated-bad_authority d v = ground arith

-- A day is neither before the first day nor after the last, where these are given.
abbrev pub IsWithin : Option ℕ → Option ℕ → ℕ → Type 0
IsWithin none none day = Unit
IsWithin (some from) none day = from ≤ day
IsWithin none (some to) day = day ≤ to
IsWithin (some from) (some to) day = (from ≤ day) × (day ≤ to)

-- A valid document is current formal legal basis on a day exactly if it is enabled, of one of the
-- seven formal types, effective, and the day is neither before its first nor after its last day.
pub current_basis_iff :
    (d : KnowledgeDocument) (day : ℕ)
    → validated d ≡ ok d
    → (is_current_formal_legal_basis d day ≡ true) ↔ (
        (d.enabled ≡ true)
        × ((contains formal_types d.authority_type ≡ true)
            × ((d.authority_status ≡ AuthorityStatus.effective)
                × IsWithin d.effective_from d.effective_to day)))
unfolding is_current_formal_legal_basis
current_basis_iff d day v =
    let role =
      bad_authority-role d.authority_type d.authority_role d.metadata_status
        (validated-bad_authority d v) in
    let status = authority_status_beq_iff d.authority_status AuthorityStatus.effective in
    (λ h. ground (arith, role, status), λ h. ground (arith, role, status))
