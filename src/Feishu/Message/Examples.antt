-- ===== src/Feishu/Message/Examples.antt =====
-- A message that fails once: the theorems about messages at concrete inputs.
use legal_workbench.Prelude.{refl, none, some, List, [], ◌∷◌, text, utc_now, nat_eq, text_eq}
use legal_workbench.Feishu.Enums.{
  FeishuMessageStatus, received, queued_for_analysis, context_prepared, analysis_failed,
}
use legal_workbench.Feishu.Message.{FeishuMessage}
use legal_workbench.Feishu.Message.Analysis.{Call, moving, run, IsNew, IsSound, message-IsSound}

abbrev new_message : FeishuMessageStatus → FeishuMessage
new_message status = record {
  id = 1;
  event_id = 2;
  tenant_key = some (text "t");
  message_id = text "om_1";
  chat_id = some (text "oc_1");
  thread_id = none;
  root_id = none;
  parent_id = none;
  sender_id = some (text "ou_1");
  sender_type = some (text "user");
  message_type = text "text";
  content = [];
  mentions = [];
  create_time = some (utc_now 0);
  update_time = none;
  raw_message = [];
  status = status;
  context_snapshot_id = none;
  last_agent_run_id = none;
  analysis_attempts = 0;
  failure_code = none;
  failure_message = none;
  version = 1;
  plain_text = some (text "please review");
  structured_content = [];
  attachments = [];
  content_hash = none;
  edited_at = none;
  recalled_at = none;
  unsupported_reason = none;
  analysis_disposition = text "analyze";
  analysis_policy_version = text "legacy-app-event-v1";
  analysis_reasons = [];
  detected_document_links = [];
  source_channel = text "app_event";
  source_channels = text "app_event" ∷ [];
  provenance = [];
}

abbrev calls : List Call
calls =
    moving queued_for_analysis none none
    ∷ moving context_prepared none none
    ∷ moving analysis_failed none none
    ∷ moving analysis_failed (some (text "code")) (some (text "message"))
    ∷ []

is_new : IsNew (new_message received)
is_new = record { status = refl; attempts = refl; version = refl }

message-IsSound_example : IsSound (run (new_message received) calls)
message-IsSound_example = message-IsSound (new_message received) calls is_new
