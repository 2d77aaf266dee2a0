-- ===== src/Feishu/Authorization/Tokens.antt =====
-- An OAuth state is used once, and a rotation leaves valid tokens.
use legal_workbench.Prelude.{
  ℕ, ◌≤◌, ◌<◌, ◌≡◌, refl, true, false, Option, List, [], ◌∷◌, Text, is_empty, DateTime, now_or,
  Result, ok, err, invalid_state_transition, if◌then◌else◌, nat_eq, text_eq, after, succeeds,
  Result-cases, inl, inr, arith, is_some, length, All,
}
use legal_workbench.Feishu.Authorization.{
  FeishuOAuthAttempt, consume, FeishuUserAuthorization, validated, next, rotate,
  clear_pending_rotation,
}

-- A callback that presents the state, at a time.
pub record Callback : Type 0 where
  pub now : Option DateTime
  pub clock : ℕ

-- The times at which callbacks in a row get through.
unfoldable pub uses : FeishuOAuthAttempt → List Callback → List DateTime
uses a [] = []
uses a (c ∷ cs) =
    let rest = uses (after a (consume a c.now c.clock)) cs in
    if succeeds (consume a c.now c.clock) then now_or c.now c.clock ∷ rest else rest

consume_used :
    (a : FeishuOAuthAttempt) (now : Option DateTime) (clock : ℕ)
    → is_some a.used_at ≡ true
    → consume a now clock ≡ err invalid_state_transition
unfolding consume
consume_used a now clock h = ground arith

uses_used :
    (a : FeishuOAuthAttempt) (cs : List Callback) → is_some a.used_at ≡ true → uses a cs ≡ []
unfolding uses
uses_used a [] h = refl
uses_used a (c ∷ cs) h = rw (consume_used a c.now c.clock h) (uses_used a cs h)

consume-IsUsed :
    (a : FeishuOAuthAttempt) (now : Option DateTime) (clock : ℕ) {a' : FeishuOAuthAttempt}
    → consume a now clock ≡ ok a'
    → (is_some a'.used_at ≡ true) × ((now_or now clock).ticks < a.expires_at.ticks)
unfolding consume
consume-IsUsed a now clock h = ground arith

consume_refused_same :
    (a : FeishuOAuthAttempt) (r : Result FeishuOAuthAttempt) → succeeds r ≡ false → after a r ≡ a
consume_refused_same a (ok b) h = cc
consume_refused_same a (err e) h = refl

-- Of any number of callbacks that present one OAuth state at most one gets through, and only before
-- the state expires.
pub uses_once :
    (a : FeishuOAuthAttempt) (cs : List Callback)
    → (length (uses a cs) ≤ 1) × All (λ t. t.ticks < a.expires_at.ticks) (uses a cs)
unfolding uses
uses_once a [] = (omega arith, tt)
uses_once a (c ∷ cs) = elim (Result-cases (consume a c.now c.clock)) [
  | inl (a', e) ↦
      let (used, early) = consume-IsUsed a c.now c.clock e in
      rw (e, uses_used a' cs used) (omega arith, (early, tt))
  | inr (x, e) ↦ rw e (uses_once a cs)
]

-- Rotating valid tokens to tokens that have references, and clearing the pending rotation, gives a
-- valid authorization with the next token version.
pub rotate-validated :
    (a : FeishuUserAuthorization) (access refresh : Text) (access_end refresh_end : DateTime)
    (scopes : List Text) (now : Option DateTime) (clock : ℕ) {a' : FeishuUserAuthorization}
    → validated a ≡ ok a
    → is_empty access ≡ false
    → is_empty refresh ≡ false
    → rotate a access refresh access_end refresh_end scopes now clock ≡ ok a'
    → (validated (clear_pending_rotation a') ≡ ok (clear_pending_rotation a'))
      × (a'.token_version ≡ next a.token_version)
unfolding validated rotate clear_pending_rotation
rotate-validated a access refresh access_end refresh_end scopes now clock v h k r = ground arith
