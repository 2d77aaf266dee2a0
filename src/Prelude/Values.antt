-- ===== src/Prelude/Values.antt =====
-- JSON-like values: what the fields of type dict[str, object] hold.
use Prim.Native.Nat.{ℕ, ◌^◌}
use mathlib.Core.Bool.{Bool, true, false, not, ◌||◌, ◌&&◌}
use mathlib.Core.Option.{Option, none, some}
use mathlib.Core.List.{List, [], ◌∷◌}
use legal_workbench.Prelude.Tests.{eq, ◌==◌, if◌then◌else◌}
use legal_workbench.Prelude.Lists.{is_empty}
use legal_workbench.Prelude.Texts.{Text, text_eq}
use legal_workbench.Prelude.Time.{DateTime}
use legal_workbench.Prelude.Int.{ℤ, pos, negsuc}

-- A float is its IEEE 754 bit pattern.
mutual
  pub data Value : Type 0 where
    null : Value
    bool : Bool → Value
    int : ℤ → Value
    float : ℕ → Value
    str : Text → Value
    time : DateTime → Value
    list : Values → Value
    dict : Fields → Value

  pub data Values : Type 0 where
    nil : Values
    cons : Value → Values → Values

  pub data Fields : Type 0 where
    no_field : Fields
    field : Text → Value → Fields → Fields

abbrev pub Dict : Type 0
Dict = List (Text × Value)

-- `d.get(k)`; the first entry of a key counts.
abbrev pub get {ℓ} : {A : Type ℓ} → List (Text × A) → Text → Option A
get [] k = none
get ((j, v) ∷ d) k = let rest = get d k in if eq j k then some v else rest

-- Python's `bool(v)`.
abbrev pub truthy : Value → Bool
truthy null = false
truthy (bool b) = b
truthy (int (pos n)) = not (n == 0)
truthy (int (negsuc n)) = true
truthy (float bits) = not (bits == 0 || bits == 2 ^ 63)
truthy (str t) = not (is_empty t)
truthy (time d) = true
truthy (list nil) = false
truthy (list (cons v vs)) = true
truthy (dict no_field) = false
truthy (dict (field k v fs)) = true

-- `str(v)`, where `render` prints the values that are no strings.
abbrev pub str_of : (Value → Text) → Value → Text
str_of render (str t) = t
str_of render v = render v

-- `str(v or "")` for a value that may be missing.
abbrev pub str_or_empty : (Value → Text) → Option Value → Text
str_or_empty render none = []
str_or_empty render (some v) = if truthy v then str_of render v else []

-- Whether json.dumps without a default takes a value: it refuses datetimes.
unfoldable mutual
  pub is_json : Value → Bool
  is_json (time d) = false
  is_json (list vs) = are_json vs
  is_json (dict fs) = fields_json fs
  is_json _ = true

  pub are_json : Values → Bool
  are_json nil = true
  are_json (cons v vs) = is_json v && are_json vs

  pub fields_json : Fields → Bool
  fields_json no_field = true
  fields_json (field k v fs) = is_json v && fields_json fs

-- The same of a dict.
abbrev pub is_json_dict : Dict → Bool
is_json_dict [] = true
is_json_dict ((k, v) ∷ d) = is_json v && is_json_dict d
