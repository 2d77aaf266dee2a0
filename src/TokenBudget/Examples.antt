-- ===== src/TokenBudget/Examples.antt =====
-- Two chunks of a statute: the theorems about budgets at concrete inputs.
use legal_workbench.Prelude.{
  ◌⊎◌, refl, ℕ, ◌≤◌, ◌≡◌, true, false, none, some, List, [], ◌∷◌, Text, text, utc_now, ok, nat_eq,
  text_eq, arith, length, All,
}
use legal_workbench.Prelude.Int.{pos}
use legal_workbench.Knowledge.Enums.{
  AuthorityType, AuthorityRole, AuthorityStatus, KnowledgeMetadataStatus,
}
use legal_workbench.Knowledge.{KnowledgeDocument, KnowledgeSearchResult}
use legal_workbench.TokenBudget.{
  BudgetedTextSlice, split_text_for_token_budget, default_knowledge_budget,
  select_budgeted_knowledge, tokens_of,
}
use legal_workbench.TokenBudget.Split.{IsSplit, split_text-IsSplit}
use legal_workbench.TokenBudget.Select.{total_tokens, select-IsWithinBudget}
use legal_workbench.TokenBudget.Greedy.{IsIn, IsTooMuch, select_settles}

abbrev statute : KnowledgeDocument
statute = record {
  id = 1;
  source_type = text "file";
  source_id = text "f1";
  title = text "act";
  document_type = text "law";
  agent_types = [];
  matter_types = [];
  jurisdiction = text "CN";
  source_priority = pos 100;
  internal_precedent = false;
  confidentiality = text "internal";
  document_version_id = none;
  matter_id = none;
  effective_from = none;
  effective_to = none;
  status = text "active";
  approved_by = none;
  authority_type = AuthorityType.law;
  authority_role = some AuthorityRole.formal_legal_basis;
  authority_status = AuthorityStatus.effective;
  metadata_status = KnowledgeMetadataStatus.ready;
  issuer = none;
  document_number = none;
  enabled = true;
  created_at = utc_now 0;
  updated_at = utc_now 0;
  version = 1;
}

abbrev found : (id : ℕ) → (hash : Text) → (tokens : ℕ) → KnowledgeSearchResult
found id hash tokens = record {
  document = statute;
  chunk = record {
    id = id;
    knowledge_document_id = 1;
    sequence = 1;
    locator = text "art. 1";
    text = text "contract";
    normalized_text = text "contract";
    text_hash = hash;
    document_segment_id = none;
    estimated_token_count = tokens;
    token_estimator = text "utf8";
    token_count_estimated = true;
    created_at = utc_now 0;
  };
  source_ref = text "act";
  score = 0x3fe0000000000000;
  component_scores = [];
}

abbrev results : List KnowledgeSearchResult
results = found 1 (text "h1") 2000 ∷ found 2 (text "h1") 2000 ∷ found 3 (text "h3") 4000 ∷ []

split_text-IsSplit_example :
    (ss : List BudgetedTextSlice) × ((split_text_for_token_budget (text "One. Two.") 1 ≡ ok ss)
      × IsSplit (text "One. Two.") 1 0 ss)
split_text-IsSplit_example = split_text-IsSplit (text "One. Two.") 1 (omega arith)

select-IsWithinBudget_example :
    (length (select_budgeted_knowledge results default_knowledge_budget).selected ≤ 8)
    × (((select_budgeted_knowledge results default_knowledge_budget).selected_token_count ≤ 12000)
        × (((select_budgeted_knowledge results default_knowledge_budget).selected_token_count
              ≡ total_tokens (select_budgeted_knowledge results default_knowledge_budget).selected)
            × All
                (λ c. tokens_of c ≤ 3000)
                (select_budgeted_knowledge results default_knowledge_budget).selected))
select-IsWithinBudget_example = select-IsWithinBudget results default_knowledge_budget

select_settles_example :
    IsIn
      (found 3 (text "h3") 4000)
      (select_budgeted_knowledge results default_knowledge_budget).selected
    ⊎ IsTooMuch default_knowledge_budget
        (select_budgeted_knowledge results default_knowledge_budget)
        (found 3 (text "h3") 4000)
select_settles_example =
    select_settles (found 1 (text "h1") 2000 ∷ found 2 (text "h1") 2000 ∷ [])
      (found 3 (text "h3") 4000) [] default_knowledge_budget refl
