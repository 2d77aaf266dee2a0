-- ===== src/Prelude/Texts.antt =====
-- Python strings as lists of code points, with `strip`, emptiness and equality.
use Prim.Native.Nat.{ℕ}
use Prim.Native.Char.{code}
use Prim.Native.String.{String}
use mathlib.Core.Path.{◌≡◌, refl, ap, ◌∙◌}
use mathlib.Core.Logic.{◌↔◌}
use mathlib.Core.Bool.{Bool, true, false, ◌&&◌, ◌||◌}
use mathlib.Core.Option.{Option, none, some}
use mathlib.Core.List.{List, [], ◌∷◌}
use native.Mathlib.Omega.{arith}
use legal_workbench.Prelude.Tests.{◌==◌, leb, ltb, if◌then◌else◌, Eq, eq}
use legal_workbench.Prelude.Lists.{is_empty}

abbrev pub Text : Type 0
Text = List ℕ

-- The code points of a literal.
abbrev pub text : String → Text
text String.[] = []
text (String.◌∷◌ c s) = code c ∷ text s

-- The code points that `str.strip` removes.
unfoldable pub is_space : ℕ → Bool
is_space c =
    leb 9 c && leb c 13
    || leb 28 c && leb c 32
    || c == 0x85
    || c == 0xa0
    || c == 0x1680
    || leb 0x2000 c && leb c 0x200a
    || c == 0x2028
    || c == 0x2029
    || c == 0x202f
    || c == 0x205f
    || c == 0x3000

unfoldable pub lstrip : Text → Text
lstrip [] = []
lstrip (c ∷ t) = let rest = lstrip t in if is_space c then rest else c ∷ t

unfoldable pub rstrip : Text → Text
rstrip [] = []
rstrip (c ∷ t) = let rest = rstrip t in if is_space c && is_empty rest then [] else c ∷ rest

unfoldable pub strip : Text → Text
strip t = rstrip (lstrip t)

rstrip-rstrip : (t : Text) → rstrip (rstrip t) ≡ rstrip t
unfolding rstrip
rstrip-rstrip [] = refl
rstrip-rstrip (c ∷ t) = ground (arith, rstrip-rstrip t)

lstrip-rstrip-lstrip : (t : Text) → lstrip (rstrip (lstrip t)) ≡ rstrip (lstrip t)
unfolding lstrip rstrip
lstrip-rstrip-lstrip [] = refl
lstrip-rstrip-lstrip (c ∷ t) = ground (arith, lstrip-rstrip-lstrip t)

pub strip-strip : (t : Text) → strip (strip t) ≡ strip t
unfolding strip
strip-strip t = ap rstrip (lstrip-rstrip-lstrip t) ∙ rstrip-rstrip (lstrip t)

-- `value.strip() if value else None`
unfoldable pub strip_or_none : Option Text → Option Text
strip_or_none none = none
strip_or_none (some t) = if is_empty t then none else some (strip t)

-- Python's `not value`.
abbrev pub is_falsy : Option Text → Bool
is_falsy none = true
is_falsy (some t) = is_empty t

abbrev pub is_blank : Text → Bool
is_blank t = is_empty (strip t)

abbrev pub text_beq : Text → Text → Bool
text_beq [] [] = true
text_beq [] (d ∷ u) = false
text_beq (c ∷ t) [] = false
text_beq (c ∷ t) (d ∷ u) = c == d && text_beq t u

pub text_beq_iff : (t u : Text) → (text_beq t u ≡ true) ↔ (t ≡ u)
text_beq_iff [] [] = (λ _. refl, λ _. refl)
text_beq_iff [] (d ∷ u) = (λ h. cc, λ h. cc)
text_beq_iff (c ∷ t) [] = (λ h. cc, λ h. cc)
text_beq_iff (c ∷ t) (d ∷ u) =
    (λ h. ground (arith, text_beq_iff t u), λ h. ground (arith, text_beq_iff t u))

instance abbrev pub text_eq : Eq Text
text_eq = record { beq = text_beq; beq_iff = text_beq_iff }

-- `value == text` for an optional text.
abbrev pub is_text : Option Text → Text → Bool
is_text none t = false
is_text (some u) t = eq u t

pub is_text-eq-some : (o : Option Text) (t : Text) → is_text o t ≡ true → o ≡ some t
is_text-eq-some none t h = cc
is_text-eq-some (some u) t h = ap some ((text_beq_iff u t).0 h)

-- Python's `<` on strings.
abbrev pub text_lt : Text → Text → Bool
text_lt t [] = false
text_lt [] (d ∷ u) = true
text_lt (c ∷ t) (d ∷ u) = ltb c d || c == d && text_lt t u
