-- ===== src/Audit.antt =====
-- domain/audit.py: the events and records that the services write beside the entities, and
-- application/idempotency.py.
use legal_workbench.Prelude.{
  ℕ, ◌≡◌, refl, Bool, ◌&&◌, Option, none, some, List, [], ◌∷◌, ◌++◌, Text, text, DateTime, Result,
  ok, err, idempotency_conflict, key_error, eq, if◌then◌else◌, nat_eq, text_eq, arith, or_option,
}
use legal_workbench.Prelude.Values.{Value, Dict, get}

-- An actor id, with the source of the identity if it is an AuthenticatedActorId.
pub record ActorId : Type 0 where
  pub value : Text
  pub identity_source : Option Text

pub record AuditEvent : Type 0 where
  pub id : ℕ
  pub aggregate_type : Text
  pub aggregate_id : ℕ
  pub event_type : Text
  pub actor_id : Text
  pub payload : Dict
  pub correlation_id : Text
  pub actor_source : Text
  pub created_at : DateTime

abbrev source_or : Option Text → Text → Text
source_or none source = source
source_or (some identity) source = identity

-- The source that `__post_init__` leaves.
unfoldable pub audited_source : ActorId → (actor_source : Text) → Text
audited_source actor source =
    if eq source (text "system") then source_or actor.identity_source source else source

pub record OutboxEvent : Type 0 where
  pub id : ℕ
  pub event_type : Text
  pub aggregate_type : Text
  pub aggregate_id : ℕ
  pub payload : Dict
  pub correlation_id : Text
  pub occurred_at : DateTime

pub record IdempotencyRecord : Type 0 where
  pub id : ℕ
  pub operation : Text
  pub idempotency_key : Text
  pub request_hash : Text
  pub response_payload : Dict
  pub created_at : DateTime
  pub expires_at : Option DateTime

abbrev pub is_record : (operation key : Text) → IdempotencyRecord → Bool
is_record operation key r = eq r.operation operation && eq r.idempotency_key key

-- The repository's `get`; operation and key are unique.
abbrev pub get_record : List IdempotencyRecord → (operation key : Text) → Option IdempotencyRecord
get_record [] operation key = none
get_record (r ∷ rs) operation key =
    let rest = get_record rs operation key in if is_record operation key r then some r else rest

pub get_record-append :
    (rs qs : List IdempotencyRecord) (operation key : Text)
    → get_record (rs ++ qs) operation key
      ≡ or_option (get_record rs operation key) (get_record qs operation key)
get_record-append [] qs operation key = refl
get_record-append (r ∷ rs) qs operation key = ground (arith, get_record-append rs qs operation key)

abbrev pub require_matching_replay :
    Option IdempotencyRecord → (expected_hash : Text) → Result (Option IdempotencyRecord)
require_matching_replay none expected_hash = ok none
require_matching_replay (some r) expected_hash =
    if eq r.request_hash expected_hash then ok (some r) else err idempotency_conflict

-- `payload[key]`
abbrev pub field_of : Dict → Text → Result Value
field_of d k = elim (get d k) [ none ↦ err key_error | some v ↦ ok v ]
