-- ===== src/Proposal/Enums.antt =====
-- The enums of domain/enums.py that matter update proposals use. `==` on an enum compares positions.
use legal_workbench.Prelude.{ℕ, ◌≡◌, ◌↔◌, Bool, true, Eq, ◌==◌, arith}

pub data MatterUpdateProposalStatus : Type 0 where
  pending approved partially_approved rejected superseded : MatterUpdateProposalStatus

pub data ProposalFieldDecisionType : Type 0 where
  approve reject : ProposalFieldDecisionType

abbrev proposal_index : MatterUpdateProposalStatus → ℕ
proposal_index pending = 0
proposal_index approved = 1
proposal_index partially_approved = 2
proposal_index rejected = 3
proposal_index superseded = 4

abbrev proposal_status_beq : MatterUpdateProposalStatus → MatterUpdateProposalStatus → Bool
proposal_status_beq a b = proposal_index a == proposal_index b

pub proposal_status_beq_iff :
    (a b : MatterUpdateProposalStatus) → (proposal_status_beq a b ≡ true) ↔ (a ≡ b)
proposal_status_beq_iff a b = (λ h. ground arith, λ h. ground arith)

instance abbrev pub proposal_status_eq : Eq MatterUpdateProposalStatus
proposal_status_eq = record { beq = proposal_status_beq; beq_iff = proposal_status_beq_iff }
