-- ===== src/Outbox.antt =====
-- infrastructure/outbox.py: OutboxDispatcher. Each function of this file is one transaction.
-- `now` is what datetime.now reads, and the ids of new rows are arguments.
-- The unique constraint on the event of a dead letter is left out.
pub mod Model
pub mod Requeue
pub mod Delivery
pub mod Dispatch
pub mod Retry
pub mod Steps
pub mod Exclusive
pub mod Settled
pub mod Recall
mod Examples
use legal_workbench.Prelude.{
  ℕ, zero, suc, ◌+◌, ◌-◌, ◌*◌, ◌^◌, ◌≤◌, ◌<◌, ◌≡◌, ◌≢◌, refl, sym, ap, ◌∙◌, Bool, true, false, not,
  ◌&&◌, ◌||◌, Option, none, some, List, [], ◌∷◌, ◌++◌, map, min, Text, text, is_blank, is_falsy,
  is_text, is_text-eq-some, is_empty, DateTime, utc_now, now_or, require_aware, dt_le, add_seconds,
  Result, ok, err, ◌>>=◌, ◌>>◌, raise_if, domain_validation, invalid_state_transition,
  entity_not_found, entity_version_conflict, idempotency_conflict, stale_agent_attempt, key_error,
  type_error, value_error, lookup_error, runtime_error, external_error, Error, eq, ◌==◌, leb, ltb,
  if◌then◌else◌, contains, nat_eq, text_eq, after, succeeds, Result-cases, Option-cases, inl, inr,
  arith, is_some, is_none, Bool-cases, ◌↔◌, length, take, keep, any, sort_by, All, ok_of_succeeds,
  text_beq_iff, ==_iff, find_row, update_row, find-update, find-append, find-key, map_option,
  or_option, Codec, code_codec, ◌⊎◌, subst,
}
use legal_workbench.Prelude.Values.{Value, str, Dict}
use legal_workbench.Audit.{
  ActorId, AuditEvent, audited_source, IdempotencyRecord, get_record, field_of,
}
use legal_workbench.Review.{Communication}
use legal_workbench.Review.Enums.{CommunicationStatus}
use legal_workbench.Outbox.Model.{
  OutboxEventModel, OutboxDeadLetterModel, ClaimedOutboxEvent, Settings, Db, event_id,
  communication_id, dead_letter_id, find_event,
}

-- `column IS NULL OR column <= now`
abbrev pub is_due : Option DateTime → DateTime → Bool
is_due none now = true
is_due (some at) now = leb at.ticks now.ticks

-- `column IS NULL OR column < now`
abbrev pub is_unlocked : Option DateTime → DateTime → Bool
is_unlocked none now = true
is_unlocked (some until) now = ltb until.ticks now.ticks

-- The rows that the statement of _claim_batch selects; rows that other transactions have locked are
-- skipped.
unfoldable pub is_claimable : (is_skipped : ℕ → Bool) → (now : DateTime) → OutboxEventModel → Bool
is_claimable is_skipped now m =
    is_none m.published_at
    && is_none m.dead_lettered_at
    && is_due m.next_attempt_at now
    && is_unlocked m.locked_until now
    && not (is_skipped m.id)

abbrev pub occurs_before : OutboxEventModel → OutboxEventModel → Bool
occurs_before m n = ltb m.occurred_at.ticks n.occurred_at.ticks

abbrev pub claimed : OutboxEventModel → ClaimedOutboxEvent
claimed m = record {
  id = m.id;
  event_type = m.event_type;
  aggregate_type = m.aggregate_type;
  aggregate_id = m.aggregate_id;
  payload = m.payload;
  correlation_id = m.correlation_id;
  attempts = m.attempts;
}

unfoldable pub lock_row : Settings → DateTime → OutboxEventModel → OutboxEventModel
lock_row s now m = record m {
  locked_until = some (add_seconds now s.outbox_lock_seconds);
  locked_by = some s.outbox_worker_id;
}

-- The assignments to each selected row.
unfoldable pub lock_rows :
    Settings → DateTime → List OutboxEventModel → List OutboxEventModel → List OutboxEventModel
unfolding lock_row
lock_rows s now [] events = events
lock_rows s now (m ∷ ms) events =
    lock_rows s now ms (update_row event_id m.id (lock_row s now) events)

unfoldable pub claim_batch :
    Settings → (is_skipped : ℕ → Bool) → (now : DateTime) → Db → Db × List ClaimedOutboxEvent
unfolding is_claimable lock_rows
claim_batch s is_skipped now db =
    let selected =
      take s.outbox_batch_size
        (sort_by occurs_before (keep (is_claimable is_skipped now) db.events)) in
    (record db { events = lock_rows s now selected db.events }, map claimed selected)

abbrev pub published_row : DateTime → OutboxEventModel → OutboxEventModel
published_row now m = record m {
  published_at = some now;
  locked_until = none;
  locked_by = none;
  last_error = none;
}

unfoldable pub mark_published : ℕ → (now : DateTime) → Db → Db
mark_published i now db = record db { events = update_row event_id i (published_row now) db.events }

-- The seconds to the next attempt.
unfoldable pub retry_delay : Settings → (attempts : ℕ) → ℕ
retry_delay s attempts =
    min (s.outbox_retry_base_seconds * 2 ^ (attempts - 1)) s.outbox_retry_max_seconds

abbrev pub retried_row :
    Settings → (attempts : ℕ) → Text → DateTime → OutboxEventModel → OutboxEventModel
retried_row s attempts error_text now m = record m {
  attempts = attempts;
  last_error = some error_text;
  locked_until = none;
  locked_by = none;
  next_attempt_at = some (add_seconds now (retry_delay s attempts));
}

abbrev pub dead_row : (attempts : ℕ) → Text → DateTime → OutboxEventModel → OutboxEventModel
dead_row attempts error_text now m = record m {
  attempts = attempts;
  last_error = some error_text;
  locked_until = none;
  locked_by = none;
  dead_lettered_at = some now;
  next_attempt_at = none;
}

abbrev pub dead_letter :
    (id attempts : ℕ) → Text → DateTime → OutboxEventModel → OutboxDeadLetterModel
dead_letter id attempts error_text now m = record {
  id = id;
  original_event_id = m.id;
  event_type = m.event_type;
  aggregate_type = m.aggregate_type;
  aggregate_id = m.aggregate_id;
  payload = m.payload;
  correlation_id = m.correlation_id;
  attempts = attempts;
  last_error = error_text;
  failed_at = now;
  requeued_at = none;
  requeued_event_id = none;
}

abbrev pub dead_communication : Text → Communication → Communication
dead_communication error_text c = record c {
  status = CommunicationStatus.dead_letter;
  last_error = some error_text;
}

-- The communication of a dead event that asked to send it.
unfoldable pub bury_communication :
    Text → OutboxEventModel → List Communication → List Communication
bury_communication error_text m cs =
    let buried = update_row communication_id m.aggregate_id (dead_communication error_text) cs in
    if eq m.event_type (text "CommunicationSendRequested") then buried else cs

-- What is written for a row that failed.
unfoldable pub fail_row :
    Settings → ClaimedOutboxEvent → Text → (dead_id : ℕ) → DateTime → OutboxEventModel → Db → Db
unfolding bury_communication
fail_row s e error dead_id now m db =
    let error_text = take 4000 error in
    let attempts = e.attempts + 1 in
    if leb s.outbox_max_attempts attempts
    then record db {
      events = update_row event_id e.id (dead_row attempts error_text now) db.events;
      dead_letters = db.dead_letters ++ dead_letter dead_id attempts error_text now m ∷ [];
      communications = bury_communication error_text m db.communications;
    }
    else record db {
      events = update_row event_id e.id (retried_row s attempts error_text now) db.events;
    }

abbrev pub fail_found :
    Settings → ClaimedOutboxEvent → Text → ℕ → DateTime → Option OutboxEventModel → Db → Db
unfolding fail_row
fail_found s e error dead_id now none db = db
fail_found s e error dead_id now (some m) db =
    if is_some m.published_at then db else fail_row s e error dead_id now m db

-- `error` is the text of the exception with its class.
unfoldable pub record_failure :
    Settings → ClaimedOutboxEvent → (error : Text) → (dead_id : ℕ) → (now : DateTime) → Db → Db
unfolding fail_row
record_failure s e error dead_id now db = fail_found s e error dead_id now (find_event db e.id) db
