-- ===== src/Prelude/Rows.antt =====
-- A table as the list of its rows, whose primary key is a number.
use Prim.Native.Nat.{ℕ}
use mathlib.Core.Path.{◌≡◌, refl, ◌∙◌, subst}
use mathlib.Core.Logic.{inl, inr}
use mathlib.Core.Option.{Option, none, some}
use mathlib.Core.List.{List, [], ◌∷◌, ◌++◌}
use native.Mathlib.Omega.{arith}
use legal_workbench.Prelude.Tests.{◌==◌, ==_iff, if◌then◌else◌, Bool-cases}

abbrev pub map_option {ℓ κ} : {A : Type ℓ} {B : Type κ} → (A → B) → Option A → Option B
map_option f none = none
map_option f (some a) = some (f a)

-- The first of two answers that is there.
abbrev pub or_option {ℓ} : {A : Type ℓ} → Option A → Option A → Option A
or_option none b = b
or_option (some a) b = some a

module _ {ℓ} {A : Type ℓ} (key : A → ℕ) where
  -- `session.get(Model, id)`
  abbrev pub find_row : List A → ℕ → Option A
  find_row [] i = none
  find_row (x ∷ xs) i = let rest = find_row xs i in if key x == i then some x else rest

  -- Assignments to the row of a key.
  abbrev pub update_row : ℕ → (A → A) → List A → List A
  update_row i f [] = []
  update_row i f (x ∷ xs) =
      let rest = update_row i f xs in if key x == i then f x ∷ rest else x ∷ rest

  pub find-update :
      (i j : ℕ) (f : A → A)
      → ((a : A) → key (f a) ≡ key a)
      → (xs : List A)
      → find_row (update_row i f xs) j
        ≡ (if i == j then map_option f (find_row xs j) else find_row xs j)
  find-update i j f keeps [] = ground arith
  find-update i j f keeps (x ∷ xs) = ground (arith, keeps x, find-update i j f keeps xs)

  pub find-append :
      (xs ys : List A) (i : ℕ) → find_row (xs ++ ys) i ≡ or_option (find_row xs i) (find_row ys i)
  find-append [] ys i = refl
  find-append (x ∷ xs) ys i = ground (arith, find-append xs ys i)

  pub find-key : (xs : List A) (i : ℕ) {a : A} → find_row xs i ≡ some a → key a ≡ i
  find-key [] i h = cc
  find-key (x ∷ xs) i {a} h = elim (Bool-cases (key x == i)) [
    | inl e ↦ ground arith
    | inr e ↦ find-key xs i {a = a} (ground arith)
  ]

  -- An assignment to the row of a key leaves every other row as it was.
  pub find-replaced :
      (i j : ℕ) (f : A → A)
      → ((a : A) → key (f a) ≡ key a)
      → (xs : List A) {a : A} → find_row xs i ≡ some a
      → find_row (update_row i f xs) j ≡ (if i == j then some (f a) else find_row xs j)
  find-replaced i j f keeps xs {a} e = find-update i j f keeps xs ∙ elim (Bool-cases (i == j)) [
    | inl q ↦
        let at_j = subst (λ k. find_row xs k ≡ some a) ((==_iff i j).0 q) e in rw (q, at_j) refl
    | inr q ↦ rw q refl
  ]
