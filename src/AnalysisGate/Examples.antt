-- ===== src/AnalysisGate/Examples.antt =====
-- The gate at work: the theorems about it at concrete inputs.
use legal_workbench.Prelude.{
  code_codec, ◌≡◌, ◌≤◌, refl, false, none, [], ◌∷◌, List, Text, text, utc_now, arith,
}
use legal_workbench.Feishu.Message.{FeishuMessage}
use legal_workbench.Feishu.Enums.{queued_for_analysis}
use legal_workbench.Prelude.Values.{Value}
use legal_workbench.Audit.{OutboxEvent}
use legal_workbench.Eligibility.{evaluate}
use legal_workbench.Outbox.{mark_published}
use legal_workbench.Outbox.Model.{Db}
use legal_workbench.AnalysisGate.{AnalysisRequest, added, exists_pending, request_if_allowed}
use legal_workbench.AnalysisGate.Pending.{
  Call, request, publish, insert, run, perform, pending_count, one_pending_request,
}

abbrev received_message : FeishuMessage
received_message = record {
  id = 4;
  event_id = 2;
  tenant_key = none;
  message_id = text "om_1";
  chat_id = none;
  thread_id = none;
  root_id = none;
  parent_id = none;
  sender_id = none;
  sender_type = none;
  message_type = text "text";
  content = [];
  mentions = [];
  create_time = none;
  update_time = none;
  raw_message = [];
  status = queued_for_analysis;
  context_snapshot_id = none;
  last_agent_run_id = none;
  analysis_attempts = 0;
  failure_code = none;
  failure_message = none;
  version = 1;
  plain_text = none;
  structured_content = [];
  attachments = [];
  content_hash = none;
  edited_at = none;
  recalled_at = none;
  unsupported_reason = none;
  analysis_disposition = text "analyze";
  analysis_policy_version = text "v1";
  analysis_reasons = [];
  detected_document_links = [];
  source_channel = text "app_event";
  source_channels = [];
  provenance = [];
}

abbrev db : Db
db = record {
  events = [];
  dead_letters = [];
  communications = [];
  messages = received_message ∷ [];
  audit_events = [];
  idempotency = [];
  tasks = [];
}

abbrev sha256 : Text → Text
sha256 t = t

abbrev render : Value → Text
render v = text "?"

abbrev asked : AnalysisRequest
asked = record {
  message_id = 4;
  actor_id = text "feishu-connector";
  actor_source = text "integration";
  correlation_id = text "c";
  force_new_run = false;
}

-- A request that did not ask the gate.
abbrev by_hand : OutboxEvent
by_hand = record {
  id = 9;
  event_type = text "FeishuMessageAnalysisRequested";
  aggregate_type = text "feishu_message";
  aggregate_id = 4;
  payload = [];
  correlation_id = text "c";
  occurred_at = utc_now 5;
}

abbrev calls : List Call
calls =
    request asked 1 (utc_now 1)
    ∷ request asked 2 (utc_now 2)
    ∷ publish 1 (utc_now 3)
    ∷ request asked 3 (utc_now 4)
    ∷ insert by_hand
    ∷ []

-- The second request finds the first, and the third comes after it was published; the
-- event of another writer is not held back.
pending_test : pending_count 4 (run code_codec sha256 render calls db).events ≡ 2
unfolding run perform request_if_allowed evaluate exists_pending added mark_published
pending_test = refl

one_pending_request_example : pending_count 4 (run code_codec sha256 render calls db).events ≤ 2
unfolding added
one_pending_request_example =
    one_pending_request code_codec sha256 render calls 4 1 db (omega arith) (omega arith)
