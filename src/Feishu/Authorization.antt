-- ===== src/Feishu/Authorization.antt =====
-- domain/feishu.py: FeishuOAuthAttempt and FeishuUserAuthorization.
pub mod Tokens
mod Examples
use legal_workbench.Prelude.{
  ℕ, zero, suc, ◌+◌, ◌-◌, ◌*◌, ◌≤◌, ◌<◌, ◌≡◌, ◌≢◌, refl, sym, ap, ◌∙◌, Bool, true, false, not, ◌&&◌,
  ◌||◌, Option, none, some, List, [], ◌∷◌, ◌++◌, Text, text, is_blank, is_falsy, is_text,
  is_text-eq-some, is_empty, DateTime, utc_now, now_or, require_aware, require_aware?, dt_le,
  Result, ok, err, ◌>>=◌, ◌>>◌, raise_if, domain_validation, invalid_state_transition, key_error,
  type_error, eq, ◌==◌, leb, ltb, if◌then◌else◌, contains, nat_eq, text_eq, after, succeeds,
  Result-cases, inl, inr, arith, is_some, is_none, Bool-cases, ◌↔◌, length, All, ok_of_succeeds,
  text_beq_iff, ==_iff,
}
use legal_workbench.Prelude.Int.{ℤ, pos, negsuc, ltb_ℤ}
use legal_workbench.Feishu.Enums.{
  FeishuUserAuthorizationStatus, FeishuTokenRotationPhase, connected,
}

pub record FeishuOAuthAttempt : Type 0 where
  pub id : ℕ
  pub state_hash : Text
  pub code_verifier_ref : Text
  pub redirect_uri : Text
  pub scopes : List Text
  pub requested_by : Text
  pub expires_at : DateTime
  pub used_at : Option DateTime
  pub created_at : DateTime

-- `__post_init__`
unfoldable pub validated_attempt : FeishuOAuthAttempt → Result FeishuOAuthAttempt
validated_attempt a = do
  require_aware a.expires_at
  raise_if (not (length a.state_hash == 64) || is_empty a.code_verifier_ref) domain_validation
  ok a

unfoldable pub consume :
    FeishuOAuthAttempt → Option DateTime → (clock : ℕ) → Result FeishuOAuthAttempt
consume a now clock = do
  let consumed_at = now_or now clock
  raise_if (is_some a.used_at) invalid_state_transition
  over ← dt_le a.expires_at consumed_at
  raise_if over invalid_state_transition
  ok (record a { used_at = some consumed_at })

pub record FeishuUserAuthorization : Type 0 where
  pub id : ℕ
  pub open_id : Text
  pub union_id : Option Text
  pub tenant_key : Text
  pub display_name : Option Text
  pub scopes : List Text
  pub access_token_ref : Text
  pub refresh_token_ref : Text
  pub access_expires_at : DateTime
  pub refresh_expires_at : DateTime
  pub token_version : ℤ
  pub status : FeishuUserAuthorizationStatus
  pub last_refreshed_at : Option DateTime
  pub last_error_code : Option Text
  pub pending_token_version : Option ℤ
  pub pending_token_bundle_ref : Option Text
  pub rotation_owner : Option Text
  pub rotation_expires_at : Option DateTime
  pub rotation_phase : FeishuTokenRotationPhase
  pub rotation_request_started_at : Option DateTime
  pub rotation_fence : ℤ
  pub rotation_result_written_at : Option DateTime
  pub rotation_reauth_reason : Option Text
  pub created_at : DateTime
  pub updated_at : DateTime

-- The pending generation does not come after the active one, or misses its bundle, owner or expiry.
abbrev pub bad_generation : FeishuUserAuthorization → Option ℤ → Bool
bad_generation a none = false
bad_generation a (some generation) =
    not (ltb_ℤ a.token_version generation)
    || is_falsy a.pending_token_bundle_ref
    || is_falsy a.rotation_owner
    || is_none a.rotation_expires_at

-- `__post_init__`
unfoldable pub validated : FeishuUserAuthorization → Result FeishuUserAuthorization
validated a = do
  require_aware a.access_expires_at
  require_aware a.refresh_expires_at
  raise_if (is_blank a.open_id || is_blank a.tenant_key) domain_validation
  raise_if
      (is_empty a.access_token_ref || is_empty a.refresh_token_ref || ltb_ℤ a.token_version (pos 1))
      domain_validation
  raise_if (bad_generation a a.pending_token_version) domain_validation
  raise_if (ltb_ℤ a.rotation_fence (pos 0)) domain_validation
  require_aware? a.rotation_request_started_at
  require_aware? a.rotation_result_written_at
  ok a

-- `n + 1`
abbrev pub next : ℤ → ℤ
next (pos n) = pos (n + 1)
next (negsuc zero) = pos 0
next (negsuc (suc n)) = negsuc n

unfoldable pub rotate :
    FeishuUserAuthorization
    → (access_token_ref refresh_token_ref : Text)
    → (access_expires_at refresh_expires_at : DateTime) → List Text
    → Option DateTime
    → (clock : ℕ) → Result FeishuUserAuthorization
rotate a access_token_ref refresh_token_ref access_expires_at refresh_expires_at scopes now clock =
    do
      let changed_at = now_or now clock
      require_aware access_expires_at
      require_aware refresh_expires_at
      ok (record a {
        access_token_ref = access_token_ref;
        refresh_token_ref = refresh_token_ref;
        access_expires_at = access_expires_at;
        refresh_expires_at = refresh_expires_at;
        scopes = scopes;
        token_version = next a.token_version;
        status = connected;
        last_refreshed_at = some changed_at;
        last_error_code = none;
        updated_at = changed_at;
      })

unfoldable pub clear_pending_rotation : FeishuUserAuthorization → FeishuUserAuthorization
clear_pending_rotation a = record a {
  pending_token_version = none;
  pending_token_bundle_ref = none;
  rotation_owner = none;
  rotation_expires_at = none;
}
