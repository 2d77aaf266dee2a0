-- ===== src/Prelude/Codecs.antt =====
-- What the standard library prints and reads back: UUIDs by `str` and `UUID`, numbers by `str` and
-- `int`.
use Prim.Native.Nat.{ℕ}
use mathlib.Core.Path.{◌≡◌, refl}
use mathlib.Core.List.{[], ◌∷◌}
use legal_workbench.Prelude.Texts.{Text}
use legal_workbench.Prelude.Results.{Result, ok, err, value_error}

pub record Codec {ℓ} (A : Type ℓ) : Type ℓ where
  pub show : A → Text
  pub parse : Text → Result A
  pub parse-show : (a : A) → parse (show a) ≡ ok a

abbrev parse_code : Text → Result ℕ
parse_code (c ∷ []) = ok c
parse_code _ = err value_error

-- An instance: a number as the text of one code point.
abbrev pub code_codec : Codec ℕ
code_codec = record { show = λ n. n ∷ []; parse = parse_code; parse-show = λ n. refl }
