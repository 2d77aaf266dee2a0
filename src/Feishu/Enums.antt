-- ===== src/Feishu/Enums.antt =====
-- The enums of domain/enums.py that Feishu messages and authorizations use. `==` on an enum compares
-- positions.
use legal_workbench.Prelude.{ℕ, ◌≡◌, ◌↔◌, Bool, true, Eq, ◌==◌, arith}

pub data FeishuMessageStatus : Type 0 where
  received queued_for_analysis context_prepared agent_queued analysing : FeishuMessageStatus
  candidate_created ignored analysis_failed dead_letter unsupported : FeishuMessageStatus

pub data FeishuUserAuthorizationStatus : Type 0 where
  connected refreshing reauth_required expired permission_missing : FeishuUserAuthorizationStatus
  revoked degraded : FeishuUserAuthorizationStatus

pub data FeishuTokenRotationPhase : Type 0 where
  idle claimed request_started result_durable activated : FeishuTokenRotationPhase

abbrev message_status_index : FeishuMessageStatus → ℕ
message_status_index FeishuMessageStatus.received = 0
message_status_index FeishuMessageStatus.queued_for_analysis = 1
message_status_index FeishuMessageStatus.context_prepared = 2
message_status_index FeishuMessageStatus.agent_queued = 3
message_status_index FeishuMessageStatus.analysing = 4
message_status_index FeishuMessageStatus.candidate_created = 5
message_status_index FeishuMessageStatus.ignored = 6
message_status_index FeishuMessageStatus.analysis_failed = 7
message_status_index FeishuMessageStatus.dead_letter = 8
message_status_index FeishuMessageStatus.unsupported = 9

abbrev message_status_beq : FeishuMessageStatus → FeishuMessageStatus → Bool
message_status_beq a b = message_status_index a == message_status_index b

pub message_status_beq_iff : (a b : FeishuMessageStatus) → (message_status_beq a b ≡ true) ↔ (a ≡ b)
message_status_beq_iff a b = (λ h. ground arith, λ h. ground arith)

instance abbrev pub message_status_eq : Eq FeishuMessageStatus
message_status_eq = record { beq = message_status_beq; beq_iff = message_status_beq_iff }
