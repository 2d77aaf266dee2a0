-- ===== src/Feishu/Authorization/Examples.antt =====
-- An OAuth login and a rotation: the theorems about them at concrete inputs.
use legal_workbench.Prelude.{
  ◌≤◌, ◌<◌, ◌≡◌, refl, none, some, List, [], ◌∷◌, text, strip, lstrip, rstrip, is_space, utc_now,
  ok, nat_eq, text_eq, length, All,
}
use legal_workbench.Prelude.Int.{pos}
use legal_workbench.Feishu.Enums.{connected, refreshing, claimed}
use legal_workbench.Feishu.Authorization.{
  FeishuOAuthAttempt, FeishuUserAuthorization, validated, rotate,
}
use legal_workbench.Feishu.Authorization.Tokens.{Callback, uses, uses_once}

abbrev attempt : FeishuOAuthAttempt
attempt = record {
  id = 1;
  state_hash = text "hash";
  code_verifier_ref = text "ref";
  redirect_uri = text "http://localhost";
  scopes = [];
  requested_by = text "legal";
  expires_at = utc_now 10;
  used_at = none;
  created_at = utc_now 0;
}

abbrev callbacks : List Callback
callbacks = record { now = none; clock = 3 } ∷ record { now = none; clock = 4 } ∷ []

uses_once_example :
    (length (uses attempt callbacks) ≤ 1)
    × All (λ t. t.ticks < attempt.expires_at.ticks) (uses attempt callbacks)
uses_once_example = uses_once attempt callbacks

abbrev pending : FeishuUserAuthorization
pending = record {
  id = 1;
  open_id = text "ou_1";
  union_id = none;
  tenant_key = text "t";
  display_name = none;
  scopes = [];
  access_token_ref = text "a1";
  refresh_token_ref = text "r1";
  access_expires_at = utc_now 10;
  refresh_expires_at = utc_now 20;
  token_version = pos 1;
  status = refreshing;
  last_refreshed_at = none;
  last_error_code = none;
  pending_token_version = some (pos 2);
  pending_token_bundle_ref = some (text "b2");
  rotation_owner = some (text "w");
  rotation_expires_at = some (utc_now 12);
  rotation_phase = claimed;
  rotation_request_started_at = none;
  rotation_fence = pos 1;
  rotation_result_written_at = none;
  rotation_reauth_reason = none;
  created_at = utc_now 0;
  updated_at = utc_now 9;
}

is_valid : validated pending ≡ ok pending
unfolding validated strip lstrip rstrip is_space
is_valid = refl

abbrev rotated : FeishuUserAuthorization
rotated = record pending {
  access_token_ref = text "a2";
  refresh_token_ref = text "r2";
  access_expires_at = utc_now 30;
  refresh_expires_at = utc_now 40;
  token_version = pos 2;
  status = connected;
  last_refreshed_at = some (utc_now 11);
  updated_at = utc_now 11;
}

rotates : rotate pending (text "a2") (text "r2") (utc_now 30) (utc_now 40) [] none 11 ≡ ok rotated
unfolding rotate
rotates = refl
