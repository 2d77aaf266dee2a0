-- ===== src/Review/Enums.antt =====
-- The enums of domain/enums.py that reviews use. `==` on an enum compares positions.
use legal_workbench.Prelude.{ℕ, ◌≡◌, ◌↔◌, Bool, true, Eq, ◌==◌, arith}

pub data ReviewPackageType : Type 0 where
  external_message internal_message legal_analysis contract_review copy_review : ReviewPackageType

pub data ReviewPackageStatus : Type 0 where
  draft pending_review approved rejected needs_information superseded : ReviewPackageStatus

-- The constructors are named for the act, since the source's names are those of the statuses.
pub data ReviewDecision : Type 0 where
  approve approve_with_edits reject ask_information : ReviewDecision

pub data CommunicationChannel : Type 0 where
  feishu : CommunicationChannel

pub data CommunicationStatus : Type 0 where
  draft pending_review approved queued sending sent unknown failed dead_letter : CommunicationStatus

abbrev type_index : ReviewPackageType → ℕ
type_index external_message = 0
type_index internal_message = 1
type_index legal_analysis = 2
type_index contract_review = 3
type_index copy_review = 4

abbrev type_beq : ReviewPackageType → ReviewPackageType → Bool
type_beq a b = type_index a == type_index b

pub type_beq_iff : (a b : ReviewPackageType) → (type_beq a b ≡ true) ↔ (a ≡ b)
type_beq_iff a b = (λ h. ground arith, λ h. ground arith)

instance abbrev pub type_eq : Eq ReviewPackageType
type_eq = record { beq = type_beq; beq_iff = type_beq_iff }

abbrev package_index : ReviewPackageStatus → ℕ
package_index ReviewPackageStatus.draft = 0
package_index ReviewPackageStatus.pending_review = 1
package_index ReviewPackageStatus.approved = 2
package_index ReviewPackageStatus.rejected = 3
package_index ReviewPackageStatus.needs_information = 4
package_index ReviewPackageStatus.superseded = 5

abbrev package_status_beq : ReviewPackageStatus → ReviewPackageStatus → Bool
package_status_beq a b = package_index a == package_index b

pub package_status_beq_iff : (a b : ReviewPackageStatus) → (package_status_beq a b ≡ true) ↔ (a ≡ b)
package_status_beq_iff a b = (λ h. ground arith, λ h. ground arith)

instance abbrev pub package_status_eq : Eq ReviewPackageStatus
package_status_eq = record { beq = package_status_beq; beq_iff = package_status_beq_iff }

abbrev decision_index : ReviewDecision → ℕ
decision_index approve = 0
decision_index approve_with_edits = 1
decision_index reject = 2
decision_index ask_information = 3

abbrev decision_beq : ReviewDecision → ReviewDecision → Bool
decision_beq a b = decision_index a == decision_index b

pub decision_beq_iff : (a b : ReviewDecision) → (decision_beq a b ≡ true) ↔ (a ≡ b)
decision_beq_iff a b = (λ h. ground arith, λ h. ground arith)

instance abbrev pub decision_eq : Eq ReviewDecision
decision_eq = record { beq = decision_beq; beq_iff = decision_beq_iff }

abbrev communication_index : CommunicationStatus → ℕ
communication_index CommunicationStatus.draft = 0
communication_index CommunicationStatus.pending_review = 1
communication_index CommunicationStatus.approved = 2
communication_index CommunicationStatus.queued = 3
communication_index CommunicationStatus.sending = 4
communication_index CommunicationStatus.sent = 5
communication_index CommunicationStatus.unknown = 6
communication_index CommunicationStatus.failed = 7
communication_index CommunicationStatus.dead_letter = 8

abbrev communication_status_beq : CommunicationStatus → CommunicationStatus → Bool
communication_status_beq a b = communication_index a == communication_index b

pub communication_status_beq_iff :
    (a b : CommunicationStatus) → (communication_status_beq a b ≡ true) ↔ (a ≡ b)
communication_status_beq_iff a b = (λ h. ground arith, λ h. ground arith)

instance abbrev pub communication_status_eq : Eq CommunicationStatus
communication_status_eq = record {
  beq = communication_status_beq;
  beq_iff = communication_status_beq_iff;
}
