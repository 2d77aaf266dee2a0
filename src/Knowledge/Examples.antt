-- ===== src/Knowledge/Examples.antt =====
-- A statute: the theorems about knowledge documents at concrete inputs.
use legal_workbench.Prelude.{
  ◌+◌, ◌≡◌, refl, true, false, none, some, [], text, strip, lstrip, rstrip, is_space, utc_now, ok,
  nat_eq, text_eq, ◌↔◌,
}
use legal_workbench.Prelude.Int.{pos}
use legal_workbench.Knowledge.Enums.{
  AuthorityType, AuthorityRole, AuthorityStatus, KnowledgeMetadataStatus, authority_type_eq,
}
use legal_workbench.Knowledge.{
  KnowledgeDocument, Metadata, validated, update_metadata, authority_role_for_type,
  authority_priority_for_type, role_priority,
}
use legal_workbench.Knowledge.Update.{update_metadata-validated}

abbrev imported : KnowledgeDocument
imported = record {
  id = 1;
  source_type = text "file";
  source_id = text "f1";
  title = text "act";
  document_type = text "unknown";
  agent_types = [];
  matter_types = [];
  jurisdiction = [];
  source_priority = pos 0;
  internal_precedent = false;
  confidentiality = text "internal";
  document_version_id = none;
  matter_id = none;
  effective_from = none;
  effective_to = none;
  status = text "active";
  approved_by = none;
  authority_type = AuthorityType.unknown;
  authority_role = none;
  authority_status = AuthorityStatus.unknown;
  metadata_status = KnowledgeMetadataStatus.pending_metadata;
  issuer = none;
  document_number = none;
  enabled = true;
  created_at = utc_now 0;
  updated_at = utc_now 0;
  version = 1;
}

is_valid : validated imported ≡ ok imported
unfolding validated strip lstrip rstrip is_space
is_valid = refl

abbrev law : Metadata
law = record {
  title = text " Civil Code ";
  authority_type = AuthorityType.law;
  authority_role = some AuthorityRole.formal_legal_basis;
  authority_status = AuthorityStatus.effective;
  jurisdiction = text "CN";
  effective_from = some 100;
  effective_to = none;
  issuer = some (text " ");
  document_number = none;
  enabled = true;
}

abbrev completed : KnowledgeDocument
completed = record imported {
  title = text "Civil Code";
  document_type = text "law";
  jurisdiction = text "CN";
  source_priority = pos 100;
  authority_type = AuthorityType.law;
  authority_role = some AuthorityRole.formal_legal_basis;
  authority_status = AuthorityStatus.effective;
  metadata_status = KnowledgeMetadataStatus.ready;
  effective_from = some 100;
  updated_at = utc_now 5;
  version = 2;
}

updates : update_metadata imported 1 law 5 ≡ ok completed
unfolding update_metadata authority_role_for_type authority_priority_for_type role_priority strip
    lstrip rstrip is_space
updates = refl

update_metadata-validated_example :
    (validated completed ≡ ok completed)
    × ((completed.version ≡ 1 + 1)
        × ((completed.metadata_status ≡ KnowledgeMetadataStatus.pending_metadata)
            ↔ (completed.authority_type ≡ AuthorityType.unknown)))
update_metadata-validated_example = update_metadata-validated imported 1 law 5 is_valid updates

is_complete : validated completed ≡ ok completed
unfolding validated authority_role_for_type strip lstrip rstrip is_space
is_complete = refl
