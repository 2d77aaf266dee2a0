-- ===== src/Outbox/Model.antt =====
-- infrastructure/outbox.py: the tables that the dispatcher reads and writes, with
-- OutboxEventModel and OutboxDeadLetterModel of infrastructure/models/core.py, and the settings.
use legal_workbench.Prelude.{ℕ, Bool, Option, List, Text, DateTime, nat_eq, text_eq, find_row}
use legal_workbench.Prelude.Values.{Dict}
use legal_workbench.Audit.{AuditEvent, IdempotencyRecord}
use legal_workbench.Feishu.Message.{FeishuMessage}
use legal_workbench.Review.{Communication}

pub record OutboxEventModel : Type 0 where
  pub id : ℕ
  pub event_type : Text
  pub aggregate_type : Text
  pub aggregate_id : ℕ
  pub payload : Dict
  pub correlation_id : Text
  pub occurred_at : DateTime
  pub published_at : Option DateTime
  pub attempts : ℕ
  pub last_error : Option Text
  pub locked_until : Option DateTime
  pub locked_by : Option Text
  pub next_attempt_at : Option DateTime
  pub dead_lettered_at : Option DateTime

pub record OutboxDeadLetterModel : Type 0 where
  pub id : ℕ
  pub original_event_id : ℕ
  pub event_type : Text
  pub aggregate_type : Text
  pub aggregate_id : ℕ
  pub payload : Dict
  pub correlation_id : Text
  pub attempts : ℕ
  pub last_error : Text
  pub failed_at : DateTime
  pub requeued_at : Option DateTime
  pub requeued_event_id : Option ℕ

pub record ClaimedOutboxEvent : Type 0 where
  pub id : ℕ
  pub event_type : Text
  pub aggregate_type : Text
  pub aggregate_id : ℕ
  pub payload : Dict
  pub correlation_id : Text
  pub attempts : ℕ

-- What is sent to the task queue.
pub data Task : Type 0 where
  document_extract : (id : ℕ) → (correlation_id : Text) → Task
  setup_codex_check : (id : ℕ) → (correlation_id : Text) → Task
  orchestrate : (payload : Dict) → (correlation_id : Text) → Task
  rerun_step : (payload : Dict) → (correlation_id : Text) → Task
  recover : (payload : Dict) → (correlation_id : Text) → Task
  process_message :
      (id : ℕ)
      → (actor_id actor_source correlation_id : Text)
      → (force_new_run recover_interrupted_run override_recalled : Bool) → Task

pub record Settings : Type 0 where
  pub outbox_batch_size : ℕ
  pub outbox_lock_seconds : ℕ
  pub outbox_max_attempts : ℕ
  pub outbox_retry_base_seconds : ℕ
  pub outbox_retry_max_seconds : ℕ
  pub outbox_worker_id : Text

-- The tables, and the tasks that were sent.
pub record Db : Type 0 where
  pub events : List OutboxEventModel
  pub dead_letters : List OutboxDeadLetterModel
  pub communications : List Communication
  pub messages : List FeishuMessage
  pub audit_events : List AuditEvent
  pub idempotency : List IdempotencyRecord
  pub tasks : List Task

-- The primary keys.
abbrev pub event_id : OutboxEventModel → ℕ
event_id m = m.id

abbrev pub communication_id : Communication → ℕ
communication_id c = c.id

abbrev pub message_id : FeishuMessage → ℕ
message_id m = m.id

abbrev pub dead_letter_id : OutboxDeadLetterModel → ℕ
dead_letter_id d = d.id

abbrev pub find_event : Db → ℕ → Option OutboxEventModel
find_event db i = find_row event_id db.events i

abbrev pub find_communication : Db → ℕ → Option Communication
find_communication db i = find_row communication_id db.communications i
