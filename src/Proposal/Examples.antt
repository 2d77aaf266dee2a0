-- ===== src/Proposal/Examples.antt =====
-- A proposal of two fields, one approved: the theorems about proposals at concrete inputs.
use legal_workbench.Prelude.{
  ◌≡◌, refl, none, some, List, [], ◌∷◌, Text, text, strip, lstrip, rstrip, is_space, utc_now, ok,
  nat_eq, text_eq,
}
use legal_workbench.Prelude.Values.{null, str, Dict}
use legal_workbench.Proposal.Enums.{pending, rejected, approve, reject, proposal_status_eq}
use legal_workbench.Proposal.{MatterUpdateProposal, create, well_keyed}
use legal_workbench.Proposal.Decisions.{
  Call, reviewing, superseding, run, IsSound, proposal-IsSound,
}

abbrev values : Dict
values =
    (text "currentValue", str (text "a"))
    ∷ (text "messageExtractedValue", str (text "b"))
    ∷ (text "aiSuggestedValue", null)
    ∷ []

abbrev changes : List (Text × Dict)
changes = (text "title", values) ∷ (text "owner", values) ∷ []

abbrev proposal : MatterUpdateProposal
proposal = record {
  id = 1;
  candidate_id = 2;
  matter_id = 3;
  base_matter_version = 1;
  proposed_changes = changes;
  reason = text "mail";
  status = pending;
  created_by = text "bot";
  final_changes = [];
  field_decisions = [];
  reviewed_by = none;
  reviewed_at = none;
  rejection_reason = none;
  created_at = utc_now 0;
  version = 1;
}

creates : create 1 2 3 1 changes (text "mail ") (text "bot") 0 ≡ ok proposal
unfolding create well_keyed strip lstrip rstrip is_space
creates = refl

abbrev calls : List Call
calls =
    reviewing
      (record { field_name = text "title"; decision = approve; final_value = str (text "b") }
        ∷ record { field_name = text "owner"; decision = reject; final_value = null }
        ∷ [])
      (text "legal") none 1 5
    ∷ superseding 2
    ∷ []

proposal-IsSound_example : IsSound (run proposal calls)
proposal-IsSound_example =
    proposal-IsSound 1 2 3 1 changes (text "mail ") (text "bot") 0 calls creates

abbrev declined : MatterUpdateProposal
declined = record proposal {
  status = rejected;
  reviewed_by = some (text "legal");
  reviewed_at = some (utc_now 5);
  rejection_reason = some (text "wrong matter");
  version = 2;
}
