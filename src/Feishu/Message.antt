-- ===== src/Feishu/Message.antt =====
-- domain/feishu.py: FeishuMessage and the statuses it goes through.
pub mod Analysis
mod Examples
use legal_workbench.Prelude.{
  ℕ, zero, suc, ◌+◌, ◌-◌, ◌*◌, ◌≤◌, ◌<◌, ◌≡◌, ◌≢◌, refl, sym, ap, ◌∙◌, Bool, true, false, not, ◌&&◌,
  ◌||◌, Option, none, some, List, [], ◌∷◌, ◌++◌, Text, text, is_blank, is_falsy, is_text,
  is_text-eq-some, is_empty, DateTime, utc_now, now_or, require_aware, require_aware?, dt_le,
  Result, ok, err, ◌>>=◌, ◌>>◌, raise_if, domain_validation, invalid_state_transition, key_error,
  type_error, eq, ◌==◌, leb, ltb, if◌then◌else◌, contains, nat_eq, text_eq, after, succeeds,
  Result-cases, inl, inr, arith, is_some, is_none, Bool-cases, ◌↔◌, length, ok_of_succeeds,
  text_beq_iff, ==_iff,
}
use legal_workbench.Prelude.Values.{Dict}
use legal_workbench.Feishu.Enums.{
  FeishuMessageStatus, received, queued_for_analysis, context_prepared, agent_queued, analysing,
  candidate_created, ignored, analysis_failed, dead_letter, unsupported, message_status_eq,
}

pub record FeishuMessage : Type 0 where
  pub id : ℕ
  pub event_id : ℕ
  pub tenant_key : Option Text
  pub message_id : Text
  pub chat_id : Option Text
  pub thread_id : Option Text
  pub root_id : Option Text
  pub parent_id : Option Text
  pub sender_id : Option Text
  pub sender_type : Option Text
  pub message_type : Text
  pub content : Dict
  pub mentions : List Dict
  pub create_time : Option DateTime
  pub update_time : Option DateTime
  pub raw_message : Dict
  pub status : FeishuMessageStatus
  pub context_snapshot_id : Option ℕ
  pub last_agent_run_id : Option ℕ
  pub analysis_attempts : ℕ
  pub failure_code : Option Text
  pub failure_message : Option Text
  pub version : ℕ
  pub plain_text : Option Text
  pub structured_content : Dict
  pub attachments : List Dict
  pub content_hash : Option Text
  pub edited_at : Option DateTime
  pub recalled_at : Option DateTime
  pub unsupported_reason : Option Text
  pub analysis_disposition : Text
  pub analysis_policy_version : Text
  pub analysis_reasons : List Text
  pub detected_document_links : List Dict
  pub source_channel : Text
  pub source_channels : List Text
  pub provenance : Dict

-- `_TRANSITIONS`, which has no entry for an unsupported message.
unfoldable pub transitions : FeishuMessageStatus → Option (List FeishuMessageStatus)
transitions received = some (queued_for_analysis ∷ [])
transitions queued_for_analysis = some (context_prepared ∷ analysis_failed ∷ dead_letter ∷ [])
transitions context_prepared = some (agent_queued ∷ analysis_failed ∷ [])
transitions agent_queued = some (analysing ∷ analysis_failed ∷ [])
transitions analysing = some (candidate_created ∷ ignored ∷ analysis_failed ∷ [])
transitions analysis_failed = some (queued_for_analysis ∷ dead_letter ∷ [])
transitions candidate_created = some (queued_for_analysis ∷ [])
transitions ignored = some (queued_for_analysis ∷ [])
transitions dead_letter = some (queued_for_analysis ∷ [])
transitions unsupported = none

-- `d[key]`
abbrev pub lookup {ℓ} : {A : Type ℓ} → Option A → Result A
lookup none = err key_error
lookup (some a) = ok a

unfoldable pub transition_to :
    FeishuMessage
    → FeishuMessageStatus
    → (failure_code failure_message : Option Text) → Result FeishuMessage
unfolding transitions
transition_to m target failure_code failure_message = do
  targets ← lookup (transitions m.status)
  raise_if (not (contains targets target)) invalid_state_transition
  raise_if
      (contains (analysis_failed ∷ dead_letter ∷ []) target
        && (is_falsy failure_code || is_falsy failure_message))
      domain_validation
  let attempts = m.analysis_attempts
  ok (record m {
    status = target;
    failure_code = failure_code;
    failure_message = failure_message;
    analysis_attempts = if eq target analysing then attempts + 1 else attempts;
    version = m.version + 1;
  })
