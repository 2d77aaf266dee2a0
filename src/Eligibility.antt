-- ===== src/Eligibility.antt =====
-- application/message_analysis_eligibility.py: MessageAnalysisEligibility.
use legal_workbench.Prelude.{
  Bool, true, false, ◌&&◌, Option, Text, text, DateTime, eq, if◌then◌else◌, nat_eq, text_eq,
  is_some,
}

pub record MessageAnalysisEligibilityDecision : Type 0 where
  pub allowed : Bool
  pub reason : Text
  pub manual_override : Bool

abbrev decision : Bool → Text → Bool → MessageAnalysisEligibilityDecision
decision allowed reason manual = record {
  allowed = allowed;
  reason = reason;
  manual_override = manual;
}

unfoldable pub evaluate :
    (recalled_at : Option DateTime)
    → (actor_source : Text) → (override_recalled : Bool) → MessageAnalysisEligibilityDecision
evaluate recalled_at actor_source override_recalled =
    if is_some recalled_at && eq actor_source (text "user") && override_recalled
    then decision true (text "manual_override") true
    else if is_some recalled_at
    then decision false (text "message_recalled") false
    else decision true (text "analysis_allowed") false
