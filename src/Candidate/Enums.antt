-- ===== src/Candidate/Enums.antt =====
-- The enums of domain/enums.py that message candidates use. `==` on an enum compares positions.
use legal_workbench.Prelude.{ℕ, ◌≡◌, ◌↔◌, Bool, true, Eq, ◌==◌, arith}

pub data CandidateStatus : Type 0 where
  pending_analysis pending_confirmation confirmed linked information_only ignored : CandidateStatus
  rejected : CandidateStatus

pub data CandidateResolutionAction : Type 0 where
  link_existing update_existing information_only ignore : CandidateResolutionAction

pub data LegalRelevance : Type 0 where
  relevant possibly_relevant not_relevant unknown : LegalRelevance

pub data MessageRole : Type 0 where
  new_request progress_update material_update decision deadline_change closure_signal : MessageRole
  information : MessageRole

pub data RecommendedAction : Type 0 where
  create_matter link_matter update_matter add_material reopen_matter : RecommendedAction
  information_only ignore needs_confirmation : RecommendedAction

abbrev candidate_index : CandidateStatus → ℕ
candidate_index CandidateStatus.pending_analysis = 0
candidate_index CandidateStatus.pending_confirmation = 1
candidate_index CandidateStatus.confirmed = 2
candidate_index CandidateStatus.linked = 3
candidate_index CandidateStatus.information_only = 4
candidate_index CandidateStatus.ignored = 5
candidate_index CandidateStatus.rejected = 6

abbrev candidate_status_beq : CandidateStatus → CandidateStatus → Bool
candidate_status_beq a b = candidate_index a == candidate_index b

pub candidate_status_beq_iff : (a b : CandidateStatus) → (candidate_status_beq a b ≡ true) ↔ (a ≡ b)
candidate_status_beq_iff a b = (λ h. ground arith, λ h. ground arith)

instance abbrev pub candidate_status_eq : Eq CandidateStatus
candidate_status_eq = record { beq = candidate_status_beq; beq_iff = candidate_status_beq_iff }

abbrev relevance_index : LegalRelevance → ℕ
relevance_index relevant = 0
relevance_index possibly_relevant = 1
relevance_index not_relevant = 2
relevance_index unknown = 3

abbrev relevance_beq : LegalRelevance → LegalRelevance → Bool
relevance_beq a b = relevance_index a == relevance_index b

pub relevance_beq_iff : (a b : LegalRelevance) → (relevance_beq a b ≡ true) ↔ (a ≡ b)
relevance_beq_iff a b = (λ h. ground arith, λ h. ground arith)

instance abbrev pub relevance_eq : Eq LegalRelevance
relevance_eq = record { beq = relevance_beq; beq_iff = relevance_beq_iff }
