-- ===== src/TokenBudget/Greedy.antt =====
-- A candidate that a selection leaves out would not fit into it.
use legal_workbench.Prelude.{
  Bool, false, ◌||◌, eq, contains, suc, Text, sort_by-All, ℕ, ◌+◌, ◌≤◌, ◌<◌, ltb, leb, ◌≡◌, refl,
  true, List, [], ◌∷◌, ◌++◌, nat_eq, text_eq, inl, inr, arith, Bool-cases, length, length-append,
  ◌⊎◌, sort_by, All,
}
use legal_workbench.Knowledge.{KnowledgeSearchResult}
use legal_workbench.TokenBudget.{
  KnowledgeBudget, KnowledgeSelection, Ranked, deduplicate, comes_before, tokens_of, is_over,
  Selecting, nothing_selected, consider, admit, select_budgeted_knowledge,
}

-- `c` is one of a list.
abbrev pub IsIn : KnowledgeSearchResult → List KnowledgeSearchResult → Type 0
IsIn c [] = ⊥
IsIn c (d ∷ ds) = (c ≡ d) ⊎ IsIn c ds

IsIn-append :
    (c : KnowledgeSearchResult) (ds es : List KnowledgeSearchResult) → IsIn c ds → IsIn c (ds ++ es)
IsIn-append c [] es h = elim h [ ]
IsIn-append c (d ∷ ds) es (inl e) = inl e
IsIn-append c (d ∷ ds) es (inr h) = inr (IsIn-append c ds es h)

IsIn-last : (c : KnowledgeSearchResult) (ds : List KnowledgeSearchResult) → IsIn c (ds ++ c ∷ [])
IsIn-last c [] = inl refl
IsIn-last c (d ∷ ds) = inr (IsIn-last c ds)

-- A candidate is selected, or would break a limit of the budget if it were added.
abbrev pub IsSettled : KnowledgeBudget → Selecting → KnowledgeSearchResult → Type 0
IsSettled b s c = IsIn c s.selected ⊎ (is_over b (length s.selected) s.selected_tokens c ≡ true)

is_over_mono :
    (b : KnowledgeBudget) (m n u v : ℕ) (c : KnowledgeSearchResult)
    → m ≤ n
    → u ≤ v
    → is_over b m u c ≡ true
    → is_over b n v c ≡ true
unfolding is_over
is_over_mono b m n u v c h k o = ground arith

settled_append :
    (b : KnowledgeBudget) (s : Selecting) (c d : KnowledgeSearchResult)
    → IsSettled b s d
    → IsIn d (s.selected ++ c ∷ [])
      ⊎ (is_over b (length (s.selected ++ c ∷ [])) (s.selected_tokens + tokens_of c) d ≡ true)
settled_append b s c d (inl h) = inl (IsIn-append d s.selected (c ∷ []) h)
settled_append b s c d (inr o) = inr (
    is_over_mono b (length s.selected) (length (s.selected ++ c ∷ [])) s.selected_tokens
      (s.selected_tokens + tokens_of c) d (omega (arith, length-append s.selected (c ∷ [])))
      (omega arith) o)

consider-IsSettled :
    (b : KnowledgeBudget) (s : Selecting) (c d : KnowledgeSearchResult)
    → IsSettled b s d
    → IsSettled b (consider b s c) d
unfolding consider
consider-IsSettled b s c d h =
    elim (Bool-cases (is_over b (length s.selected) s.selected_tokens c)) [
      | inl e ↦ rw e h
      | inr e ↦ rw e (settled_append b s c d h)
    ]

consider_same :
    (b : KnowledgeBudget) (s : Selecting) (c : KnowledgeSearchResult)
    → IsSettled b (consider b s c) c
unfolding consider
consider_same b s c = elim (Bool-cases (is_over b (length s.selected) s.selected_tokens c)) [
  | inl e ↦ rw e (inr e)
  | inr e ↦ rw e (inl (IsIn-last c s.selected))
]

admit-IsSettled :
    (b : KnowledgeBudget) (s : Selecting) (rs : List Ranked) (d : KnowledgeSearchResult)
    → IsSettled b s d
    → IsSettled b (admit b s rs) d
unfolding admit
admit-IsSettled b s [] d h = h
admit-IsSettled b s ((i, c) ∷ rs) d h =
    admit-IsSettled b (consider b s c) rs d (consider-IsSettled b s c d h)

admit_settles :
    (b : KnowledgeBudget) (s : Selecting) (rs : List Ranked)
    → All (λ r. IsSettled b (admit b s rs) r.1) rs
unfolding admit
admit_settles b s [] = tt
admit_settles b s ((i, c) ∷ rs) = (
  admit-IsSettled b (consider b s c) rs c (consider_same b s c),
  admit_settles b (consider b s c) rs,
)

-- Whether a list has a candidate whose text hash is `h`.
abbrev pub has_hash : (h : Text) → List KnowledgeSearchResult → Bool
has_hash h [] = false
has_hash h (c ∷ cs) = eq c.chunk.text_hash h || has_hash h cs

or_false : (b c : Bool) → (b || c) ≡ false → (b ≡ false) × (c ≡ false)
or_false true c h = cc
or_false false c h = (refl, h)

-- The first loop keeps a candidate whose hash is neither seen before nor that of an earlier candidate.
deduplicate_keeps :
    (index : ℕ) (seen : List Text) (before : List KnowledgeSearchResult) (c : KnowledgeSearchResult)
    (rest : List KnowledgeSearchResult) (P : Ranked → Type 0)
    → contains seen c.chunk.text_hash ≡ false
    → has_hash c.chunk.text_hash before ≡ false
    → All P (deduplicate index seen (before ++ c ∷ rest))
    → (i : ℕ) × P (i, c)
unfolding deduplicate
deduplicate_keeps index seen [] c rest P new first p = let (kept, _) = rw new at p in (index, kept)
deduplicate_keeps index seen (d ∷ before) c rest P new first p =
    elim (Bool-cases (contains seen d.chunk.text_hash)) [
      | inl e ↦
          deduplicate_keeps (suc index) seen before c rest P new
            (or_false (eq d.chunk.text_hash c.chunk.text_hash) (has_hash c.chunk.text_hash before)
              first).1
            (rw e at p)
      | inr e ↦
          let (_, others) = rw e at p in
          let (apart, later) =
            or_false (eq d.chunk.text_hash c.chunk.text_hash) (has_hash c.chunk.text_hash before)
              first in
          deduplicate_keeps (suc index) (d.chunk.text_hash ∷ seen) before c rest P
            (rw (apart, new) refl) later others
    ]

-- A candidate does not fit beside what is selected: it is too long by itself, there are as many
-- candidates as the budget has room for, or its tokens are more than are left.
abbrev pub IsTooMuch : KnowledgeBudget → KnowledgeSelection → KnowledgeSearchResult → Type 0
IsTooMuch b s c =
    (b.max_single_chunk_tokens < tokens_of c)
    ⊎ ((b.max_chunks ≤ length s.selected) ⊎ (b.max_tokens < s.selected_token_count + tokens_of c))

is_over-IsTooMuch :
    (b : KnowledgeBudget) (s : KnowledgeSelection) (c : KnowledgeSearchResult)
    → is_over b (length s.selected) s.selected_token_count c ≡ true
    → IsTooMuch b s c
unfolding is_over
is_over-IsTooMuch b s c h = elim (Bool-cases (ltb b.max_single_chunk_tokens (tokens_of c))) [
  | inl e ↦ inl (ground arith)
  | inr e ↦ elim (Bool-cases (leb b.max_chunks (length s.selected))) [
    | inl f ↦ inr (inl (ground arith))
    | inr f ↦ inr (inr (ground arith))
  ]
]

-- A candidate whose text hash no earlier candidate has is selected, or does not fit: it has more tokens
-- than a chunk may have, or as many candidates are selected as the budget allows, or its tokens and
-- those of the selected ones exceed the budget.
pub select_settles :
    (before : List KnowledgeSearchResult) (c : KnowledgeSearchResult)
    (rest : List KnowledgeSearchResult) (b : KnowledgeBudget)
    → has_hash c.chunk.text_hash before ≡ false
    → IsIn c (select_budgeted_knowledge (before ++ c ∷ rest) b).selected
      ⊎ IsTooMuch b (select_budgeted_knowledge (before ++ c ∷ rest) b) c
unfolding select_budgeted_knowledge
select_settles before c rest b first =
    let candidates = before ++ c ∷ rest in
    let ranked = sort_by comes_before (deduplicate 0 [] candidates) in
    let settled = admit_settles b nothing_selected ranked in
    let kept =
      sort_by-All comes_before (λ r. IsSettled b (admit b nothing_selected ranked) r.1)
        (deduplicate 0 [] candidates) settled in
    elim ((deduplicate_keeps 0 [] before c rest
      (λ r. IsSettled b (admit b nothing_selected ranked) r.1) refl first kept).1) [
        | inl selected ↦ inl selected
        | inr over ↦ inr (is_over-IsTooMuch b (select_budgeted_knowledge candidates b) c over)
      ]
