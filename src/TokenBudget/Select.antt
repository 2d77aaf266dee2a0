-- ===== src/TokenBudget/Select.antt =====
-- A selection keeps to the budget, accounts for every candidate and leaves out none that would fit.
use legal_workbench.Prelude.{
  ℕ, suc, ◌+◌, ◌≤◌, ◌≡◌, refl, List, [], ◌∷◌, ◌++◌, Text, contains, nat_eq, text_eq, inl, inr,
  arith, Bool-cases, length, length-append, length-sort_by, sort_by, All,
}
use legal_workbench.Knowledge.{KnowledgeSearchResult}
use legal_workbench.TokenBudget.{
  KnowledgeBudget, Ranked, deduplicate, count_duplicates, comes_before, tokens_of, is_over,
  Selecting, nothing_selected, consider, admit, select_budgeted_knowledge,
}

-- The tokens of a list of candidates.
unfoldable pub total_tokens : List KnowledgeSearchResult → ℕ
total_tokens [] = 0
total_tokens (c ∷ cs) = tokens_of c + total_tokens cs

total_tokens-append :
    (cs ds : List KnowledgeSearchResult)
    → total_tokens (cs ++ ds) ≡ total_tokens cs + total_tokens ds
unfolding total_tokens
total_tokens-append [] ds = omega arith
total_tokens-append (c ∷ cs) ds = omega (arith, total_tokens-append cs ds)

-- The selected candidates keep to the three limits, and their tokens are counted.
pub record IsWithinBudget (b : KnowledgeBudget) (s : Selecting) : Type 0 where
  pub few : length s.selected ≤ b.max_chunks
  pub short : s.selected_tokens ≤ b.max_tokens
  pub counted : s.selected_tokens ≡ total_tokens s.selected
  pub small : All (λ c. tokens_of c ≤ b.max_single_chunk_tokens) s.selected

All-snoc :
    (b : KnowledgeBudget) (cs : List KnowledgeSearchResult) (c : KnowledgeSearchResult)
    → All (λ d. tokens_of d ≤ b.max_single_chunk_tokens) cs
    → tokens_of c ≤ b.max_single_chunk_tokens
    → All (λ d. tokens_of d ≤ b.max_single_chunk_tokens) (cs ++ c ∷ [])
All-snoc b [] c h k = (k, tt)
All-snoc b (d ∷ cs) c (h, hs) k = (h, All-snoc b cs c hs k)

total_tokens_single : (c : KnowledgeSearchResult) → total_tokens (c ∷ []) ≡ tokens_of c
unfolding total_tokens
total_tokens_single c = omega arith

consider-IsWithinBudget :
    (b : KnowledgeBudget) (s : Selecting) (c : KnowledgeSearchResult)
    → IsWithinBudget b s
    → IsWithinBudget b (consider b s c)
unfolding consider is_over
consider-IsWithinBudget b s c w =
    elim (Bool-cases (is_over b (length s.selected) s.selected_tokens c)) [
      | inl e ↦ rw e (record { few = w.few; short = w.short; counted = w.counted; small = w.small })
      | inr e ↦ rw e (record {
        few = ground (arith, length-append s.selected (c ∷ []));
        short = ground arith;
        counted =
            omega
              (arith, w.counted, total_tokens-append s.selected (c ∷ []), total_tokens_single c);
        small = All-snoc b s.selected c w.small (ground arith);
      })
    ]

admit-IsWithinBudget :
    (b : KnowledgeBudget) (s : Selecting) (rs : List Ranked)
    → IsWithinBudget b s
    → IsWithinBudget b (admit b s rs)
unfolding admit
admit-IsWithinBudget b s [] w = w
admit-IsWithinBudget b s ((i, c) ∷ rs) w =
    admit-IsWithinBudget b (consider b s c) rs (consider-IsWithinBudget b s c w)

nothing-IsWithinBudget : (b : KnowledgeBudget) → IsWithinBudget b nothing_selected
unfolding total_tokens
nothing-IsWithinBudget b = record {
  few = omega arith;
  short = omega arith;
  counted = refl;
  small = tt;
}

-- A selection has at most the chunks and the tokens of the budget, each chunk at most the tokens of
-- one chunk, and the token count is the sum over the selected chunks.
pub select-IsWithinBudget :
    (cs : List KnowledgeSearchResult) (b : KnowledgeBudget)
    → (length (select_budgeted_knowledge cs b).selected ≤ b.max_chunks)
      × (((select_budgeted_knowledge cs b).selected_token_count ≤ b.max_tokens)
          × (((select_budgeted_knowledge cs b).selected_token_count
                ≡ total_tokens (select_budgeted_knowledge cs b).selected)
              × All
                  (λ c. tokens_of c ≤ b.max_single_chunk_tokens)
                  (select_budgeted_knowledge cs b).selected))
unfolding select_budgeted_knowledge
select-IsWithinBudget cs b =
    let w =
      admit-IsWithinBudget b nothing_selected (sort_by comes_before (deduplicate 0 [] cs))
        (nothing-IsWithinBudget b) in
    (w.few, (w.short, (w.counted, w.small)))

length-deduplicate :
    (i : ℕ) (seen : List Text) (cs : List KnowledgeSearchResult)
    → length (deduplicate i seen cs) + count_duplicates seen cs ≡ length cs
unfolding deduplicate count_duplicates
length-deduplicate i seen [] = refl
length-deduplicate i seen (c ∷ cs) =
    let h = c.chunk.text_hash in
    elim (Bool-cases (contains seen h)) [
      | inl e ↦ rw e (omega (arith, length-deduplicate (suc i) seen cs))
      | inr e ↦ rw e (omega (arith, length-deduplicate (suc i) (h ∷ seen) cs))
    ]

consider-count :
    (b : KnowledgeBudget) (s : Selecting) (c : KnowledgeSearchResult)
    → length (consider b s c).selected + (consider b s c).excluded_by_budget
      ≡ suc (length s.selected + s.excluded_by_budget)
unfolding consider
consider-count b s c = elim (Bool-cases (is_over b (length s.selected) s.selected_tokens c)) [
  | inl e ↦ rw e (omega arith)
  | inr e ↦ rw e (omega (arith, length-append s.selected (c ∷ [])))
]

admit-count :
    (b : KnowledgeBudget) (s : Selecting) (rs : List Ranked)
    → length (admit b s rs).selected + (admit b s rs).excluded_by_budget
      ≡ length s.selected + s.excluded_by_budget + length rs
unfolding admit
admit-count b s [] = omega arith
admit-count b s ((i, c) ∷ rs) =
    omega (arith, consider-count b s c, admit-count b (consider b s c) rs)

-- Every candidate is selected, or counted as over the budget, or counted as a duplicate.
pub select-accounts :
    (cs : List KnowledgeSearchResult) (b : KnowledgeBudget)
    → length (select_budgeted_knowledge cs b).selected
        + (select_budgeted_knowledge cs b).excluded_by_token_budget_count
        + (select_budgeted_knowledge cs b).excluded_duplicate_count
      ≡ length cs
unfolding select_budgeted_knowledge
select-accounts cs b =
    let ds = deduplicate 0 [] cs in
    omega (
      arith,
      admit-count b nothing_selected (sort_by comes_before ds),
      length-sort_by comes_before ds,
      length-deduplicate 0 [] cs,
    )
