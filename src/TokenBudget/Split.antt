-- ===== src/TokenBudget/Split.antt =====
-- Splitting a text loses nothing and keeps to the limit.
use legal_workbench.Prelude.{
  ℕ, zero, suc, ◌+◌, ◌-◌, ◌*◌, ◌≤◌, ◌<◌, ◌≡◌, ap, Bool, true, false, some, List, [], ◌∷◌, Text,
  is_blank, ok, leb, ltb, if◌then◌else◌, nat_eq, text_eq, inl, inr, arith, Bool-cases, length,
  Option-cases, subst, max, length-drop, take, drop, ◌/◌,
}
use legal_workbench.TokenBudget.{
  utf8_size, byte_count, estimate, BudgetedTextSlice, slice, fill, starts_with, last_match, rfind,
  markers, first_marker, preferred_split_end, shrink, piece_end, slice_of, pieces,
  split_text_for_token_budget,
}

fill-le-length : (m : ℕ) (is_first : Bool) (used : ℕ) (t : Text) → fill m is_first used t ≤ length t
unfolding fill
fill-le-length m is_first used [] = omega arith
fill-le-length m is_first used (c ∷ t) =
    ground (arith, fill-le-length m false (used + utf8_size c) t)

fill-positive : (m used : ℕ) (t : Text) → 1 ≤ length t → 1 ≤ fill m true used t
unfolding fill
fill-positive m used [] h = omega (arith, h)
fill-positive m used (c ∷ t) h = ground arith

last_match-bounds :
    (t m : Text) (lo n : ℕ) {p : ℕ} → last_match t m lo n ≡ some p → (lo ≤ p) × (p < lo + n)
unfolding last_match
last_match-bounds t m lo zero h = cc
last_match-bounds t m lo (suc n) {p} h = elim (Bool-cases (starts_with m (drop (lo + n) t))) [
  | inl e ↦ ground arith
  | inr e ↦ ground (arith, last_match-bounds t m lo n {p = p})
]

rfind-bounds :
    (t m : Text) (lo hi : ℕ) {p : ℕ} → rfind t m lo hi ≡ some p → (lo ≤ p) × (p + length m ≤ hi)
unfolding rfind
rfind-bounds t m lo hi {p} h =
    let (low, high) = last_match-bounds t m lo (suc hi - (lo + length m)) h in
    (low, omega (arith, low, high))

first_marker-bounds :
    (t : Text) (ms : List Text) (lo hi : ℕ)
    → lo ≤ hi
    → (lo ≤ first_marker t ms lo hi) × (first_marker t ms lo hi ≤ hi)
unfolding first_marker
first_marker-bounds t [] lo hi l = (l, omega arith)
first_marker-bounds t (m ∷ ms) lo hi l = elim (Option-cases (rfind t m lo hi)) [
  | inl e ↦ rw e (first_marker-bounds t ms lo hi l)
  | inr (p, e) ↦ let (low, high) = rfind-bounds t m lo hi e in rw e (omega (arith, low), high)
]

preferred_split_end-bounds :
    (t : Text) (start hard_end : ℕ)
    → start < hard_end
    → (start < preferred_split_end t start hard_end)
      × (preferred_split_end t start hard_end ≤ hard_end)
unfolding preferred_split_end
preferred_split_end-bounds t start hard_end l =
    let lo = start + max ((hard_end - start) / 2) 1 in
    let marked = first_marker-bounds t markers lo hard_end (omega arith) in
    elim (Bool-cases (leb (length t) hard_end)) [
      | inl e ↦ rw e (l, omega arith)
      | inr e ↦ rw e (omega (arith, marked.0), marked.1)
    ]

shrink-bounds :
    (t : Text) (start m n : ℕ) → 1 ≤ n → (1 ≤ shrink t start m n) × (shrink t start m n ≤ n)
unfolding shrink
shrink-bounds t start m zero l = (l, omega arith)
shrink-bounds t start m (suc zero) l = (omega arith, omega arith)
shrink-bounds t start m (suc (suc n)) l = ground (arith, shrink-bounds t start m (suc n))

slice_from : (t : Text) (start n : ℕ) → slice t start (start + n) ≡ take n (drop start t)
slice_from t start n = ap (λ k. take k (drop start t)) (omega arith)

one_fits : (m : ℕ) (t : Text) → 1 ≤ m → estimate (take 1 t) ≤ m
unfolding estimate byte_count utf8_size
one_fits m [] l = omega (arith, l)
one_fits m (c ∷ t) l = ground (arith, l)

zero_fits : (m : ℕ) (t : Text) → estimate (take 0 t) ≤ m
unfolding estimate byte_count
zero_fits m t = omega arith

shrink-fits :
    (t : Text) (start m n : ℕ) → 1 ≤ m → estimate (slice t start (start + shrink t start m n)) ≤ m
unfolding shrink
shrink-fits t start m zero l = rw (slice_from t start 0) (zero_fits m (drop start t))
shrink-fits t start m (suc zero) l = rw (slice_from t start 1) (one_fits m (drop start t) l)
shrink-fits t start m (suc (suc n)) l =
    elim (Bool-cases (ltb m (estimate (slice t start (start + suc (suc n)))))) [
      | inl e ↦ rw e (shrink-fits t start m (suc n) l)
      | inr e ↦ rw e (ground arith)
    ]

-- Where a piece that starts inside the text ends: after its start, inside the text, within the limit.
piece_end-bounds :
    (t : Text) (m start : ℕ)
    → 1 ≤ m
    → start < length t
    → (start < piece_end t m start)
      × ((piece_end t m start ≤ length t) × (estimate (slice t start (piece_end t m start)) ≤ m))
unfolding piece_end
piece_end-bounds t m start l s =
    let n = fill (m * 4) true 0 (drop start t) in
    let low = fill-positive (m * 4) 0 (drop start t) (omega (arith, length-drop start t)) in
    let high = fill-le-length (m * 4) true 0 (drop start t) in
    let end =
      if leb (preferred_split_end t start (start + n)) start
      then start + n
      else preferred_split_end t start (start + n) in
    let (above, below) = preferred_split_end-bounds t start (start + n) (omega (arith, low)) in
    let (least, most) = shrink-bounds t start m (end - start) (ground (arith, low, above)) in
    (
      omega (arith, least),
      (
        ground (arith, most, below, high, length-drop start t),
        shrink-fits t start m (end - start) l,
      ),
    )

-- From `start` on, slices and left-out blank pieces make up the text, in order and without a gap:
-- each slice holds the text between its offsets, is not blank, and counts its tokens, at most `m`.
pub data IsSplit (t : Text) (m : ℕ) : ℕ → List BudgetedTextSlice → Type 0 where
  finished : IsSplit t m (length t) []
  blank :
      {start end : ℕ} {ss : List BudgetedTextSlice}
      → start < end
      → is_blank (slice t start end) ≡ true
      → IsSplit t m end ss
      → IsSplit t m start ss
  piece :
      {start end : ℕ} {ss : List BudgetedTextSlice}
      → start < end
      → is_blank (slice t start end) ≡ false
      → estimate (slice t start end) ≤ m
      → IsSplit t m end ss
      → IsSplit t m start (slice_of t start end ∷ ss)

pieces-IsSplit :
    (t : Text) (m fuel start : ℕ)
    → 1 ≤ m
    → start ≤ length t
    → length t ≤ start + fuel
    → IsSplit t m start (pieces t m fuel start)
unfolding pieces
pieces-IsSplit t m zero start l s f = subst (λ k. IsSplit t m k []) (omega (arith, s, f)) finished
pieces-IsSplit t m (suc fuel) start l s f = elim (Bool-cases (leb (length t) start)) [
  | inl e ↦ rw e (subst (λ k. IsSplit t m k []) (ground (arith, s)) finished)
  | inr e ↦
      let (low, (high, fits)) = piece_end-bounds t m start l (ground arith) in
      let end = piece_end t m start in
      let rest = pieces-IsSplit t m fuel end l high (omega (arith, f, low)) in
      elim (Bool-cases (is_blank (slice t start end))) [
        | inl b ↦ rw (e, b) (blank low b rest)
        | inr b ↦ rw (e, b) (piece low b fits rest)
      ]
]

-- A text is split under every limit of at least one token: the slices and the blank pieces left out
-- make up the text in order and without a gap, and each slice has at most the tokens of the limit.
pub split_text-IsSplit :
    (t : Text) (m : ℕ)
    → 1 ≤ m
    → (ss : List BudgetedTextSlice) × ((split_text_for_token_budget t m ≡ ok ss) × IsSplit t m 0 ss)
unfolding split_text_for_token_budget
split_text-IsSplit [] m l = ([], (ground arith, finished))
split_text-IsSplit (c ∷ t) m l = (
  pieces (c ∷ t) m (length (c ∷ t)) 0,
  (ground arith, pieces-IsSplit (c ∷ t) m (length (c ∷ t)) 0 l (omega arith) (omega arith)),
)
