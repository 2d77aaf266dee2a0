-- ===== src/Candidate/Examples.antt =====
-- A candidate at work: the theorems about candidates at concrete inputs.
use legal_workbench.Prelude.{
  ◌≡◌, refl, true, none, some, List, [], ◌∷◌, text, utc_now, ok, strip, lstrip, rstrip, is_space,
  strip_or_none,
}
use legal_workbench.Candidate.Enums.{
  CandidateStatus, CandidateResolutionAction, LegalRelevance, MessageRole, RecommendedAction,
}
use legal_workbench.Candidate.{MessageCandidate, NewCandidate, create}
use legal_workbench.Candidate.Decisions.{Call, confirming, resolving, superseding, run, run_decided}

abbrev found : NewCandidate
found = record {
  context_snapshot_id = 3;
  status = CandidateStatus.pending_confirmation;
  legal_relevance = LegalRelevance.relevant;
  message_role = MessageRole.new_request;
  recommended_action = RecommendedAction.create_matter;
  confidence = 0x3fe0000000000000;
  title_proposal = some (text " Lease ");
  category_proposals = [];
  deadline_proposals = [];
  related_matter_proposals = [];
  evidence_refs = [];
  agent_run_id = none;
}

abbrev fresh : MessageCandidate
fresh = record {
  id = 1;
  context_snapshot_id = 3;
  status = CandidateStatus.pending_confirmation;
  legal_relevance = LegalRelevance.relevant;
  message_role = MessageRole.new_request;
  recommended_action = RecommendedAction.create_matter;
  confidence = 0x3fe0000000000000;
  title_proposal = some (text "Lease");
  category_proposals = [];
  deadline_proposals = [];
  related_matter_proposals = [];
  evidence_refs = [];
  agent_run_id = none;
  feishu_message_id = none;
  requires_manual_review = true;
  analysis_payload = [];
  confirmed_by = none;
  confirmed_at = none;
  version = 1;
}

is_created : create 1 found ≡ ok fresh
unfolding create strip_or_none strip lstrip rstrip is_space
is_created = refl

abbrev calls : List Call
calls =
    confirming (text "legal") 1 5
    ∷ resolving CandidateResolutionAction.ignore (text "bot") 1 6
    ∷ superseding
    ∷ []

abbrev decided : MessageCandidate
decided = record fresh {
  status = CandidateStatus.confirmed;
  confirmed_by = some (text "legal");
  confirmed_at = some (utc_now 5);
}

run_decided_example : run decided calls ≡ decided
run_decided_example = run_decided decided calls refl
