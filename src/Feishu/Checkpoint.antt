-- ===== src/Feishu/Checkpoint.antt =====
-- domain/feishu.py: FeishuSyncCheckpoint, the lease under which a worker reads a Feishu chat.
pub mod Lease
pub mod Fencing
mod Examples
use legal_workbench.Prelude.{
  ℕ, zero, suc, ◌+◌, ◌-◌, ◌*◌, ◌≤◌, ◌<◌, ◌≡◌, ◌≢◌, refl, sym, ap, ◌∙◌, Bool, true, false, not, ◌&&◌,
  ◌||◌, Option, none, some, List, [], ◌∷◌, ◌++◌, Text, text, is_blank, is_falsy, is_text,
  is_text-eq-some, is_empty, DateTime, utc_now, now_or, require_aware, require_aware?, dt_le,
  Result, ok, err, ◌>>=◌, ◌>>◌, raise_if, domain_validation, invalid_state_transition, key_error,
  type_error, eq, ◌==◌, leb, ltb, if◌then◌else◌, contains, nat_eq, text_eq, after, succeeds,
  Result-cases, inl, inr, arith, is_some, is_none, Bool-cases, ◌↔◌, length, ok_of_succeeds,
  text_beq_iff, ==_iff,
}

pub record FeishuSyncCheckpoint : Type 0 where
  pub id : ℕ
  pub authorization_id : ℕ
  pub scope_id : ℕ
  pub watermark : Option DateTime
  pub page_token : Option Text
  pub consecutive_failures : ℕ
  pub last_error_code : Option Text
  pub last_started_at : Option DateTime
  pub last_succeeded_at : Option DateTime
  pub lease_owner : Option Text
  pub lease_expires_at : Option DateTime
  pub lease_fence : ℕ
  pub updated_at : DateTime

-- A new checkpoint: the defaults of the fields.
abbrev pub new_checkpoint : (id authorization_id scope_id clock : ℕ) → FeishuSyncCheckpoint
new_checkpoint id authorization_id scope_id clock = record {
  id = id;
  authorization_id = authorization_id;
  scope_id = scope_id;
  watermark = none;
  page_token = none;
  consecutive_failures = 0;
  last_error_code = none;
  last_started_at = none;
  last_succeeded_at = none;
  lease_owner = none;
  lease_expires_at = none;
  lease_fence = 0;
  updated_at = utc_now clock;
}

-- `expires_at is not None and expires_at > now`
abbrev pub ends_after : Option DateTime → DateTime → Result Bool
ends_after none now = ok false
ends_after (some until) now = dt_le until now >>= λ over. ok (not over)

-- The condition of claim.
abbrev pub lease_active : FeishuSyncCheckpoint → DateTime → Result Bool
lease_active c now = if is_none c.lease_owner then ok false else ends_after c.lease_expires_at now

-- The checkpoint with its lease, and the number that the lease got.
unfoldable pub claim :
    FeishuSyncCheckpoint
    → (owner : Text) → (expires_at now : DateTime) → Result (FeishuSyncCheckpoint × ℕ)
claim c owner expires_at now = do
  require_aware expires_at
  require_aware now
  active ← lease_active c now
  raise_if active domain_validation
  ok (
    record c {
      lease_owner = some owner;
      lease_expires_at = some expires_at;
      lease_fence = c.lease_fence + 1;
      last_started_at = some now;
      updated_at = now;
    },
    c.lease_fence + 1,
  )

-- `expires_at is None or expires_at <= now`
abbrev pub has_ended : Option DateTime → DateTime → Result Bool
has_ended none now = ok true
has_ended (some until) now = dt_le until now

unfoldable pub require_lease :
    FeishuSyncCheckpoint → (owner : Text) → (fence : ℕ) → (now : DateTime) → Result (Unit {0})
require_lease c owner fence now = do
  require_aware now
  raise_if (not (is_text c.lease_owner owner)) domain_validation
  raise_if (not (eq c.lease_fence fence)) domain_validation
  over ← has_ended c.lease_expires_at now
  raise_if over domain_validation

unfoldable pub renew :
    FeishuSyncCheckpoint
    → (owner : Text) → (fence : ℕ) → (page_token : Option Text) → (expires_at now : DateTime)
    → Result FeishuSyncCheckpoint
unfolding require_lease
renew c owner fence page_token expires_at now = do
  require_lease c owner fence now
  require_aware expires_at
  ok (record c { page_token = page_token; lease_expires_at = some expires_at; updated_at = now })

unfoldable pub succeed :
    FeishuSyncCheckpoint
    → (owner : Text) → (fence : ℕ) → (watermark now : DateTime) → Result FeishuSyncCheckpoint
unfolding require_lease
succeed c owner fence watermark now = do
  require_lease c owner fence now
  require_aware watermark
  ok (record c {
    watermark = some watermark;
    page_token = none;
    consecutive_failures = 0;
    last_error_code = none;
    last_succeeded_at = some now;
    lease_owner = none;
    lease_expires_at = none;
    updated_at = now;
  })

unfoldable pub fail :
    FeishuSyncCheckpoint
    → (owner : Text) → (fence : ℕ) → (error_code : Text) → (now : DateTime)
    → Result FeishuSyncCheckpoint
unfolding require_lease
fail c owner fence error_code now = do
  require_lease c owner fence now
  ok (record c {
    consecutive_failures = c.consecutive_failures + 1;
    last_error_code = some error_code;
    page_token = none;
    lease_owner = none;
    lease_expires_at = none;
    updated_at = now;
  })
