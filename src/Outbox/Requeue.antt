-- ===== src/Outbox/Requeue.antt =====
-- infrastructure/outbox.py: requeue_dead_letter, one transaction. UUIDs as texts and SHA-256 are
-- parameters.
use legal_workbench.Prelude.{
  ℕ, Bool, true, false, Option, none, some, [], ◌∷◌, ◌++◌, Text, text, DateTime, Result, ok, err,
  ◌>>=◌, ◌>>◌, raise_if, lookup_error, runtime_error, nat_eq, text_eq, is_some, find_row,
  update_row, Codec,
}
use legal_workbench.Prelude.Values.{Value, str, Dict}
use legal_workbench.Audit.{ActorId, IdempotencyRecord, get_record, field_of}
use legal_workbench.Outbox.Model.{OutboxEventModel, OutboxDeadLetterModel, Db, dead_letter_id}

pub record RequeuedDeadLetter : Type 0 where
  pub outbox_event_id : ℕ
  pub idempotent_replay : Bool

-- The ids of the rows that a requeue adds, and its time.
pub record RequeueIds : Type 0 where
  pub event_id : ℕ
  pub audit_id : ℕ
  pub record_id : ℕ
  pub now : DateTime

abbrev pub requeued_row : RequeueIds → OutboxDeadLetterModel → OutboxEventModel
requeued_row ids d = record {
  id = ids.event_id;
  event_type = d.event_type;
  aggregate_type = d.aggregate_type;
  aggregate_id = d.aggregate_id;
  payload = d.payload;
  correlation_id = d.correlation_id;
  occurred_at = ids.now;
  published_at = none;
  attempts = 0;
  last_error = none;
  locked_until = none;
  locked_by = none;
  next_attempt_at = some ids.now;
  dead_lettered_at = none;
}

abbrev pub marked_requeued : RequeueIds → OutboxDeadLetterModel → OutboxDeadLetterModel
marked_requeued ids d = record d {
  requeued_at = some ids.now;
  requeued_event_id = some ids.event_id;
}

module _ (uuid : Codec ℕ) (sha256 : Text → Text) (render : Value → Text) where
  abbrev pub requeue_operation : ℕ → Text
  requeue_operation i = text "requeue_outbox_dead_letter:" ++ uuid.show i

  abbrev pub requeue_response : (dead_letter_id event_id : ℕ) → Dict
  requeue_response i e =
      (text "deadLetterId", str (uuid.show i)) ∷ (text "outboxEventId", str (uuid.show e)) ∷ []

  -- `UUID(str(existing.response_payload["outboxEventId"]))`
  abbrev pub replayed_id : IdempotencyRecord → Result ℕ
  replayed_id r = do
    v ← field_of r.response_payload (text "outboxEventId")
    uuid.parse (elim v [ str t ↦ t | w ↦ render w ])

  -- The writes of a first requeue.
  unfoldable pub requeue_row :
      (dead_letter_id : ℕ)
      → ActorId
      → (actor_source correlation_id idempotency_key : Text) → RequeueIds
      → OutboxDeadLetterModel
      → Db
      → Db
  requeue_row i actor source correlation key ids d db = record db {
    events = db.events ++ requeued_row ids d ∷ [];
    dead_letters = update_row dead_letter_id i (marked_requeued ids) db.dead_letters;
    audit_events =
        db.audit_events
        ++ record {
          id = ids.audit_id;
          aggregate_type = text "outbox_dead_letter";
          aggregate_id = i;
          event_type = text "outbox_dead_letter_requeued";
          actor_id = actor.value;
          payload = requeue_response i ids.event_id;
          correlation_id = correlation;
          actor_source = source;
          created_at = ids.now;
        }
          ∷ [];
    idempotency =
        db.idempotency
        ++ record {
          id = ids.record_id;
          operation = requeue_operation i;
          idempotency_key = key;
          request_hash = sha256 (uuid.show i);
          response_payload = requeue_response i ids.event_id;
          created_at = ids.now;
          expires_at = none;
        }
          ∷ [];
  }

  abbrev pub requeue_found :
      (dead_letter_id : ℕ)
      → ActorId
      → (actor_source correlation_id idempotency_key : Text) → RequeueIds
      → OutboxDeadLetterModel
      → Option IdempotencyRecord
      → Db
      → Result (Db × RequeuedDeadLetter)
  unfolding requeue_row
  requeue_found i actor source correlation key ids d (some r) db = do
    e ← replayed_id r
    ok (db, record { outbox_event_id = e; idempotent_replay = true })
  requeue_found i actor source correlation key ids d none db = do
    raise_if (is_some d.requeued_at) runtime_error
    ok (
      requeue_row i actor source correlation key ids d db,
      record { outbox_event_id = ids.event_id; idempotent_replay = false },
    )

  unfoldable pub requeue_dead_letter :
      (dead_letter_id : ℕ)
      → ActorId
      → (actor_source correlation_id idempotency_key : Text) → RequeueIds
      → Db
      → Result (Db × RequeuedDeadLetter)
  unfolding requeue_row
  requeue_dead_letter i actor source correlation key ids db =
      elim (find_row dead_letter_id db.dead_letters i) [
        | none ↦ err lookup_error
        | some d ↦
            requeue_found i actor source correlation key ids d
              (get_record db.idempotency (requeue_operation i) key) db
      ]
