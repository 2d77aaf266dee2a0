-- ===== src/Prelude/Results.antt =====
-- The exceptions of domain/errors.py, and Python's own where the domain code can raise one.
-- Messages and details are left out: an exception is its class.
use mathlib.Core.Path.{◌≡◌, refl}
use mathlib.Core.Logic.{◌⊎◌, inl, inr}
use mathlib.Core.Bool.{Bool, true, false}

pub data Error : Type 0 where
  domain_error domain_validation entity_not_found entity_version_conflict : Error
  invalid_state_transition idempotency_conflict stale_agent_attempt : Error
  storage_quota_exceeded evaluation_runtime_disabled evaluation_fixture_conflict : Error
  type_error key_error value_error lookup_error runtime_error external_error : Error

pub data Result {ℓ} (A : Type ℓ) : Type ℓ where
  ok : A → Result A
  err : Error → Result A

infixl 5 ◌>>=◌ ◌>>◌
abbrev pub ◌>>=◌ {ℓ κ} : {V : Type ℓ} {W : Type κ} → Result V → (V → Result W) → Result W
err raised >>= next = err raised
ok value >>= next = next value

-- A check, and what follows it.
abbrev pub ◌>>◌ {ℓ} : {W : Type ℓ} → Result (Unit {0}) → Result W → Result W
check >> next = check >>= λ passed. next

-- `if test: raise e`
abbrev pub raise_if : Bool → Error → Result (Unit {0})
raise_if true e = err e
raise_if false e = ok tt

abbrev pub succeeds {ℓ} : {A : Type ℓ} → Result A → Bool
succeeds (ok a) = true
succeeds (err e) = false

-- A state after a call that may raise: an exception leaves it as it was.
abbrev pub after {ℓ} : {A : Type ℓ} → A → Result A → A
after a (ok b) = b
after a (err e) = a

pub ok_of_succeeds {ℓ} : {A : Type ℓ} (m : Result A) → succeeds m ≡ true → (a : A) × (m ≡ ok a)
ok_of_succeeds (ok a) h = (a, refl)
ok_of_succeeds (err e) h = cc

-- To split on a result and keep the equation.
pub Result-cases {ℓ} :
    {A : Type ℓ} (m : Result A) → ((a : A) × (m ≡ ok a)) ⊎ ((e : Error) × (m ≡ err e))
Result-cases (ok a) = inl (a, refl)
Result-cases (err e) = inr (e, refl)

pub ok-injective {ℓ} : {A : Type ℓ} {a b : A} → ok a ≡ ok b → a ≡ b
ok-injective h = cc

pub ok-ne-err {ℓ} : {A : Type ℓ} {a : A} {e : Error} → err e ≡ ok a → ⊥
ok-ne-err h = cc
