-- ===== src/Prelude/Time.antt =====
-- datetime values, and domain/common.py. A datetime is a count of microseconds, of UTC if it is
-- timezone-aware and of the wall clock if it is naive. Reading the clock is an argument of the model.
use Prim.Native.Nat.{ℕ, ◌+◌, ◌*◌}
use mathlib.Core.Bool.{Bool, true, false, not}
use mathlib.Core.Option.{Option, none, some}
use legal_workbench.Prelude.Tests.{leb, if◌then◌else◌}
use legal_workbench.Prelude.Results.{Result, ok, err, raise_if, type_error, domain_validation}

pub record DateTime : Type 0 where
  pub ticks : ℕ
  pub aware : Bool

abbrev pub utc_now : ℕ → DateTime
utc_now clock = record { ticks = clock; aware = true }

abbrev pub require_aware : DateTime → Result (Unit {0})
require_aware d = raise_if (not d.aware) domain_validation

-- `if value is not None: require_aware(value)`
abbrev pub require_aware? : Option DateTime → Result (Unit {0})
require_aware? none = ok tt
require_aware? (some d) = require_aware d

-- `d + timedelta(seconds=n)`
abbrev pub add_seconds : DateTime → ℕ → DateTime
add_seconds d n = record d { ticks = d.ticks + n * 1000000 }

-- `now or utc_now()`: a datetime is never falsy.
abbrev pub now_or : Option DateTime → ℕ → DateTime
now_or none clock = utc_now clock
now_or (some d) clock = d

abbrev same_kind : Bool → Bool → Bool
same_kind true b = b
same_kind false b = not b

-- `a <= b`, which raises TypeError between an aware and a naive value.
abbrev pub dt_le : DateTime → DateTime → Result Bool
dt_le a b = if same_kind a.aware b.aware then ok (leb a.ticks b.ticks) else err type_error
