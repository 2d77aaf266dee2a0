-- ===== src/TokenBudget.antt =====
-- application/token_budget.py: token estimates, the splitting of texts and the selection of
-- knowledge under a budget. A limit below 1 is 0 here. A text is one that encodes to UTF-8: it has no
-- lone surrogates. A score is the bit pattern of a float that is no NaN.
pub mod Split
pub mod Select
pub mod Greedy
mod Examples
use legal_workbench.Prelude.{
  ℕ, zero, suc, ◌+◌, ◌-◌, ◌*◌, ◌≤◌, ◌<◌, ◌≡◌, ◌≢◌, refl, sym, ap, ◌∙◌, Bool, true, false, not, ◌&&◌,
  ◌||◌, Option, none, some, List, [], ◌∷◌, ◌++◌, Text, text, is_blank, strip, is_falsy, is_text,
  is_text-eq-some, is_empty, DateTime, utc_now, now_or, require_aware, require_aware?, dt_le,
  Result, ok, err, ◌>>=◌, ◌>>◌, raise_if, domain_validation, invalid_state_transition, key_error,
  type_error, eq, ◌==◌, leb, ltb, if◌then◌else◌, contains, nat_eq, text_eq, after, succeeds,
  Result-cases, inl, inr, arith, is_some, is_none, Bool-cases, ◌↔◌, length, max, take, drop, ◌/◌,
  ◌^◌, sort_by, value_error, All, ok_of_succeeds, text_beq_iff, ==_iff,
}
use legal_workbench.Prelude.Int.{ℤ, pos, negsuc, ltb_ℤ}
use legal_workbench.Knowledge.Enums.{AuthorityRole}
use legal_workbench.Knowledge.{KnowledgeSearchResult}

-- `len(c.encode("utf-8"))`
unfoldable pub utf8_size : ℕ → ℕ
utf8_size c = if ltb c 0x80 then 1 else if ltb c 0x800 then 2 else if ltb c 0x10000 then 3 else 4

-- `len(text.encode("utf-8"))`
unfoldable pub byte_count : Text → ℕ
byte_count [] = 0
byte_count (c ∷ t) = utf8_size c + byte_count t

-- The tokens of the estimate.
unfoldable pub estimate : Text → ℕ
estimate t = (byte_count t + 3) / 4

pub record BudgetedTextSlice : Type 0 where
  pub start_offset : ℕ
  pub end_offset : ℕ
  pub text : Text
  pub estimated_token_count : ℕ

-- `text[start:end]`
abbrev pub slice : Text → (start end : ℕ) → Text
slice t start end = take (end - start) (drop start t)

-- The inner loop: how many characters from `start` on fill `max_bytes`. At least one is taken.
unfoldable pub fill : (max_bytes : ℕ) → (is_first : Bool) → (used : ℕ) → Text → ℕ
fill max_bytes is_first used [] = 0
fill max_bytes is_first used (c ∷ rest) =
    let next_used = used + utf8_size c in
    let more = fill max_bytes false next_used rest in
    if not is_first && ltb max_bytes next_used
    then 0
    else if leb max_bytes next_used
    then 1
    else suc more

abbrev pub starts_with : Text → Text → Bool
starts_with [] t = true
starts_with (m ∷ ms) [] = false
starts_with (m ∷ ms) (c ∷ t) = m == c && starts_with ms t

-- The last of `count` positions from `lo` on at which a marker stands.
unfoldable pub last_match : Text → (marker : Text) → (lo count : ℕ) → Option ℕ
last_match t marker lo zero = none
last_match t marker lo (suc n) =
    let earlier = last_match t marker lo n in
    if starts_with marker (drop (lo + n) t) then some (lo + n) else earlier

-- `text.rfind(marker, lo, hi)`
unfoldable pub rfind : Text → (marker : Text) → (lo hi : ℕ) → Option ℕ
rfind t marker lo hi = last_match t marker lo (suc hi - (lo + length marker))

-- The markers of _preferred_split_end: an empty line, a line, Chinese and Latin punctuation.
abbrev pub markers : List Text
markers =
    (10 ∷ 10 ∷ [])
    ∷ (10 ∷ [])
    ∷ (0x3002 ∷ [])
    ∷ (0xff01 ∷ [])
    ∷ (0xff1f ∷ [])
    ∷ (0xff1b ∷ [])
    ∷ (46 ∷ 32 ∷ [])
    ∷ (59 ∷ 32 ∷ [])
    ∷ []

-- `if position >= minimum: return position + len(marker)`, or go on.
abbrev pub end_of_match : (len : ℕ) → Option ℕ → (next : ℕ) → ℕ
end_of_match len none next = next
end_of_match len (some position) next = position + len

-- The end of the first of the markers that is found, or `hard_end`.
unfoldable pub first_marker : Text → List Text → (minimum hard_end : ℕ) → ℕ
first_marker t [] minimum hard_end = hard_end
first_marker t (m ∷ ms) minimum hard_end =
    let next = first_marker t ms minimum hard_end in
    end_of_match (length m) (rfind t m minimum hard_end) next

unfoldable pub preferred_split_end : Text → (start hard_end : ℕ) → ℕ
preferred_split_end t start hard_end =
    if leb (length t) hard_end
    then hard_end
    else first_marker t markers (start + max ((hard_end - start) / 2) 1) hard_end

-- The loop that shortens a piece of `n` characters from `start` on while it is over the limit.
unfoldable pub shrink : Text → (start max_tokens n : ℕ) → ℕ
shrink t start max_tokens zero = zero
shrink t start max_tokens (suc zero) = suc zero
shrink t start max_tokens (suc (suc n)) =
    let shorter = shrink t start max_tokens (suc n) in
    if ltb max_tokens (estimate (slice t start (start + suc (suc n)))) then shorter else suc (suc n)

-- Where the piece that starts at `start` ends.
unfoldable pub piece_end : Text → (max_tokens start : ℕ) → ℕ
piece_end t max_tokens start =
    let hard_end = start + fill (max_tokens * 4) true 0 (drop start t) in
    let preferred = preferred_split_end t start hard_end in
    let end = if leb preferred start then hard_end else preferred in
    start + shrink t start max_tokens (end - start)

-- The slice of a piece.
unfoldable pub slice_of : Text → (start end : ℕ) → BudgetedTextSlice
slice_of t start end = record {
  start_offset = start;
  end_offset = end;
  text = slice t start end;
  estimated_token_count = estimate (slice t start end);
}

-- The outer loop, on fuel.
unfoldable pub pieces : Text → (max_tokens fuel start : ℕ) → List BudgetedTextSlice
pieces t max_tokens zero start = []
pieces t max_tokens (suc fuel) start =
    let end = piece_end t max_tokens start in
    let piece = slice t start end in
    let rest = pieces t max_tokens fuel end in
    if leb (length t) start
    then []
    else if is_blank piece
    then rest
    else slice_of t start end ∷ rest

-- A step of the outer loop moves `start` on: as many steps as the text has characters are enough.
unfoldable pub split_text_for_token_budget :
    Text → (max_tokens : ℕ) → Result (List BudgetedTextSlice)
split_text_for_token_budget t max_tokens = do
  raise_if (ltb max_tokens 1) value_error
  ok (if is_empty t then [] else pieces t max_tokens (length t) 0)

pub record KnowledgeBudget : Type 0 where
  pub max_chunks : ℕ
  pub max_tokens : ℕ
  pub max_single_chunk_tokens : ℕ

-- `__post_init__`
unfoldable pub validated : KnowledgeBudget → Result KnowledgeBudget
validated b = do
  raise_if
      (ltb b.max_chunks 1
        || ltb b.max_tokens 1
        || ltb b.max_single_chunk_tokens 1
        || ltb b.max_tokens b.max_single_chunk_tokens)
      value_error
  ok b

abbrev pub default_knowledge_budget : KnowledgeBudget
default_knowledge_budget = record {
  max_chunks = 8;
  max_tokens = 12000;
  max_single_chunk_tokens = 3000;
}

pub record KnowledgeSelection : Type 0 where
  pub selected : List KnowledgeSearchResult
  pub selected_token_count : ℕ
  pub excluded_by_token_budget_count : ℕ
  pub excluded_duplicate_count : ℕ

unfoldable pub authority_rank : Option AuthorityRole → ℕ
authority_rank (some AuthorityRole.formal_legal_basis) = 5
authority_rank (some AuthorityRole.contractual_basis) = 4
authority_rank (some AuthorityRole.persuasive_authority) = 3
authority_rank (some AuthorityRole.internal_basis) = 2
authority_rank (some AuthorityRole.strategy_reference) = 1
authority_rank none = 0

-- A float by its order: the bit pattern, negated if the sign bit is set.
abbrev pub float_key : ℕ → ℤ
float_key bits =
    if ltb bits (2 ^ 63) then pos bits else elim (bits - 2 ^ 63) [ zero ↦ pos 0 | suc n ↦ negsuc n ]

abbrev pub Ranked : Type 0
Ranked = ℕ × KnowledgeSearchResult

-- The first loop: the candidates whose text hash is new, with their index.
unfoldable pub deduplicate :
    (index : ℕ) → (seen : List Text) → List KnowledgeSearchResult → List Ranked
deduplicate index seen [] = []
deduplicate index seen (c ∷ cs) =
    let h = c.chunk.text_hash in
    let skipped = deduplicate (suc index) seen cs in
    let kept = (index, c) ∷ deduplicate (suc index) (h ∷ seen) cs in
    if contains seen h then skipped else kept

-- The comparison of the sort keys. Two keys differ in the index, so the chunk ids are not compared.
abbrev pub comes_before : Ranked → Ranked → Bool
comes_before (i, c) (j, d) =
    let rank_c = authority_rank c.document.authority_role in
    let rank_d = authority_rank d.document.authority_role in
    let score_c = float_key c.score in
    let score_d = float_key d.score in
    ltb rank_d rank_c
    || rank_c == rank_d && (ltb_ℤ score_d score_c || not (ltb_ℤ score_c score_d) && ltb i j)

unfoldable pub tokens_of : KnowledgeSearchResult → ℕ
tokens_of c =
    if c.chunk.estimated_token_count == 0
    then estimate c.chunk.text
    else c.chunk.estimated_token_count

-- The test of the second loop.
unfoldable pub is_over : KnowledgeBudget → (count used : ℕ) → KnowledgeSearchResult → Bool
is_over b count used c =
    ltb b.max_single_chunk_tokens (tokens_of c)
    || leb b.max_chunks count
    || ltb b.max_tokens (used + tokens_of c)

-- The state of the second loop.
pub record Selecting : Type 0 where
  pub selected : List KnowledgeSearchResult
  pub selected_tokens : ℕ
  pub excluded_by_budget : ℕ

abbrev pub nothing_selected : Selecting
nothing_selected = record { selected = []; selected_tokens = 0; excluded_by_budget = 0 }

-- The body of the second loop.
unfoldable pub consider : KnowledgeBudget → Selecting → KnowledgeSearchResult → Selecting
unfolding is_over tokens_of
consider b s c =
    if is_over b (length s.selected) s.selected_tokens c
    then record s { excluded_by_budget = s.excluded_by_budget + 1 }
    else record s {
      selected = s.selected ++ c ∷ [];
      selected_tokens = s.selected_tokens + tokens_of c;
    }

unfoldable pub admit : KnowledgeBudget → Selecting → List Ranked → Selecting
admit b s [] = s
admit b s ((i, c) ∷ rs) = admit b (consider b s c) rs

-- The candidates that the first loop leaves out.
unfoldable pub count_duplicates : (seen : List Text) → List KnowledgeSearchResult → ℕ
count_duplicates seen [] = 0
count_duplicates seen (c ∷ cs) =
    let h = c.chunk.text_hash in
    let again = suc (count_duplicates seen cs) in
    let first = count_duplicates (h ∷ seen) cs in if contains seen h then again else first

unfoldable pub select_budgeted_knowledge :
    List KnowledgeSearchResult → KnowledgeBudget → KnowledgeSelection
select_budgeted_knowledge candidates b =
    let deduplicated = deduplicate 0 [] candidates in
    let done = admit b nothing_selected (sort_by comes_before deduplicated) in
    record {
      selected = done.selected;
      selected_token_count = done.selected_tokens;
      excluded_by_token_budget_count = done.excluded_by_budget;
      excluded_duplicate_count = count_duplicates [] candidates;
    }
