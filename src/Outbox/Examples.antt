-- ===== src/Outbox/Examples.antt =====
-- The dispatcher at work: the theorems about it at concrete inputs.
use legal_workbench.Prelude.{
  ◌≡◌, ◌≢◌, ◌≤◌, refl, true, none, some, [], ◌∷◌, text, ok, utc_now, is_some, arith, length,
}
use legal_workbench.Prelude.Values.{str}
use legal_workbench.Review.{Communication}
use legal_workbench.Review.Enums.{queued, dead_letter, feishu}
use legal_workbench.Feishu.Message.{FeishuMessage}
use legal_workbench.Feishu.Enums.{queued_for_analysis}
use legal_workbench.Outbox.{retry_delay}
use legal_workbench.Outbox.Model.{OutboxEventModel, ClaimedOutboxEvent, Settings, Db, find_event}
use legal_workbench.Outbox.Delivery.{delivered, mark_communication_sending, sending_row}
use legal_workbench.Outbox.Dispatch.{World, Failure, dispatch, handler_of}
use legal_workbench.Outbox.Retry.{attempts_at, unhandled_is_dead_lettered}
use legal_workbench.Outbox.Steps.{System, Reach, here, next, begin, count}
use legal_workbench.Outbox.Exclusive.{sends_exclusive}
use legal_workbench.Outbox.Settled.{settled_never_sent}
use legal_workbench.Outbox.Recall.{recalled_is_suppressed}

abbrev settings : Settings
settings = record {
  outbox_batch_size = 50;
  outbox_lock_seconds = 60;
  outbox_max_attempts = 2;
  outbox_retry_base_seconds = 5;
  outbox_retry_max_seconds = 300;
  outbox_worker_id = text "w1";
}

abbrev event : OutboxEventModel
event = record {
  id = 1;
  event_type = text "WorkItemChanged";
  aggregate_type = text "work_item";
  aggregate_id = 5;
  payload = [];
  correlation_id = text "c";
  occurred_at = utc_now 0;
  published_at = none;
  attempts = 0;
  last_error = none;
  locked_until = none;
  locked_by = none;
  next_attempt_at = none;
  dead_lettered_at = none;
}

abbrev message_to_send : Communication
message_to_send = record {
  id = 9;
  matter_id = 7;
  review_package_id = 1;
  review_record_id = 2;
  channel = feishu;
  target = [];
  content = text "hello!";
  content_hash = text "h";
  status = queued;
  requested_by = text "legal";
  correlation_id = text "c";
  work_item_id = none;
  external_message_id = none;
  attempts = 0;
  last_error = none;
  queued_at = some (utc_now 5);
  sent_at = none;
  version = 1;
}

abbrev recalled : FeishuMessage
recalled = record {
  id = 4;
  event_id = 2;
  tenant_key = none;
  message_id = text "om_1";
  chat_id = none;
  thread_id = none;
  root_id = none;
  parent_id = none;
  sender_id = none;
  sender_type = none;
  message_type = text "text";
  content = [];
  mentions = [];
  create_time = none;
  update_time = none;
  raw_message = [];
  status = queued_for_analysis;
  context_snapshot_id = none;
  last_agent_run_id = none;
  analysis_attempts = 0;
  failure_code = none;
  failure_message = none;
  version = 1;
  plain_text = none;
  structured_content = [];
  attachments = [];
  content_hash = none;
  edited_at = none;
  recalled_at = some (utc_now 3);
  unsupported_reason = none;
  analysis_disposition = text "analyze";
  analysis_policy_version = text "v1";
  analysis_reasons = [];
  detected_document_links = [];
  source_channel = text "app_event";
  source_channels = [];
  provenance = [];
}

abbrev db : Db
db = record {
  events = event ∷ [];
  dead_letters = [];
  communications = message_to_send ∷ record message_to_send { id = 8; status = dead_letter } ∷ [];
  messages = recalled ∷ [];
  audit_events = [];
  idempotency = [];
  tasks = [];
}

abbrev world : World
world = record {
  takes = λ t. true;
  client = λ c. delivered (text "om_9");
  render = λ v. text "?";
  now = utc_now 10;
  audit_id = 30;
}

abbrev failure : Failure
failure = record { dead_id = 20; describe = λ e. text "RuntimeError" }

retry_delay_test : retry_delay settings 3 ≡ 20
unfolding retry_delay
retry_delay_test = refl

unhandled_is_dead_lettered_example :
    (m : OutboxEventModel) × ((find_event
          (attempts_at settings 1 ((world, failure) ∷ (world, failure) ∷ []) db)
          1
        ≡ some m)
      × ((m.published_at ≡ none) × ((is_some m.dead_lettered_at ≡ true) × (m.attempts ≡ 2))))
unfolding handler_of
unhandled_is_dead_lettered_example =
    unhandled_is_dead_lettered settings ((world, failure) ∷ (world, failure) ∷ []) db event refl
      refl refl refl (omega arith) refl

abbrev idle : System
idle = record { db = db; in_flight = [] }

abbrev sending_db : Db
sending_db = record db {
  communications =
      sending_row message_to_send ∷ record message_to_send { id = 8; status = dead_letter } ∷ [];
}

does_begin : mark_communication_sending 9 db ≡ ok (sending_db, some (sending_row message_to_send))
unfolding mark_communication_sending
does_begin = refl

abbrev busy : System
busy = record { db = sending_db; in_flight = 9 ∷ [] }

starts : Reach idle busy
starts = next here (begin idle 9 (sending_row message_to_send) sending_db does_begin)

sends_exclusive_example : count 9 busy.in_flight ≤ 1
sends_exclusive_example = sends_exclusive db busy 9 starts

settled_never_sent_example :
    mark_communication_sending 8 busy.db ≢ ok (busy.db, some message_to_send)
unfolding count
settled_never_sent_example = settled_never_sent idle busy 8 busy.db message_to_send starts refl refl

abbrev request : ClaimedOutboxEvent
request = record {
  id = 2;
  event_type = text "FeishuMessageAnalysisRequested";
  aggregate_type = text "feishu_message";
  aggregate_id = 4;
  payload = (text "actorId", str (text "u")) ∷ [];
  correlation_id = text "c";
  attempts = 0;
}

recalled_is_suppressed_example :
    ((dispatch world request db).0.tasks ≡ [])
    × (((dispatch world request db).1 ≡ ok tt)
        × (length (dispatch world request db).0.audit_events ≡ 1))
unfolding handler_of
recalled_is_suppressed_example =
    recalled_is_suppressed world request db recalled refl refl refl refl
