-- ===== src/Review/Examples.antt =====
-- A reply that is drafted, reviewed and sent. The hash of the examples is the text itself.
use legal_workbench.Prelude.{
  ◌≡◌, refl, false, none, some, List, [], ◌∷◌, Text, text, utc_now, ok, strip, lstrip, rstrip,
  is_space,
}
use legal_workbench.Prelude.Values.{Value, str}
use legal_workbench.Review.Enums.{
  ReviewPackageStatus, CommunicationStatus, external_message, approve_with_edits, feishu,
}
use legal_workbench.Review.{
  ReviewPackage, NewPackage, ReviewRecord, Communication, create, submit, apply_review, unaddressed,
  create_from_approved_review,
}
use legal_workbench.Review.Lifecycle.{
  IsSound, Call, submitting, reviewing, perform, run, history-IsSound,
}
use legal_workbench.Review.Sending.{approved_is_sendable, HasApproval, sent-HasApproval}

abbrev plain : Text → Text
plain t = t

abbrev render : Value → Text
render v = text "?"

abbrev reply : NewPackage
reply = record {
  matter_id = 7;
  work_item_id = none;
  package_type = external_message;
  title = text "Reply";
  background = text "b";
  confirmed_facts = [];
  unconfirmed_facts = [];
  reasoning = text "r";
  risks = [];
  alternatives = [];
  citations = [];
  proposed_content = text " hello ";
  target = (text "receiveId", str (text "ou_1")) ∷ [];
  created_by = text "butler";
  grounding_payload = none;
}

abbrev drafted : ReviewPackage
drafted = record {
  id = 1;
  matter_id = 7;
  package_type = external_message;
  title = text "Reply";
  background = text "b";
  confirmed_facts = [];
  unconfirmed_facts = [];
  reasoning = text "r";
  risks = [];
  alternatives = [];
  citations = [];
  proposed_content = text "hello";
  target = (text "receiveId", str (text "ou_1")) ∷ [];
  created_by = text "butler";
  work_item_id = none;
  grounding_payload = [];
  status = ReviewPackageStatus.draft;
  submitted_at = none;
  approved_content_hash = none;
  version = 1;
}

is_drafted : create render 1 reply ≡ ok drafted
unfolding create unaddressed strip lstrip rstrip is_space
is_drafted = refl

abbrev pending : ReviewPackage
pending = record drafted {
  status = ReviewPackageStatus.pending_review;
  submitted_at = some (utc_now 3);
}

abbrev agreed : ReviewPackage
agreed = record pending {
  status = ReviewPackageStatus.approved;
  approved_content_hash = some (text "hello!");
}

is_agreed :
    apply_review plain pending approve_with_edits (some (text " hello!")) 1
    ≡ ok (agreed, some (text "hello!"))
unfolding apply_review strip lstrip rstrip is_space
is_agreed = refl

abbrev verdict : ReviewRecord
verdict = record {
  id = 2;
  review_package_id = 1;
  reviewer_id = text "legal";
  decision = approve_with_edits;
  comments = none;
  final_content = some (text "hello!");
  final_content_hash = some (text "hello!");
  change_summary = [];
  reusable_as_example = false;
  reviewed_at = utc_now 4;
}

abbrev outgoing : Communication
outgoing = record {
  id = 9;
  matter_id = 7;
  review_package_id = 1;
  review_record_id = 2;
  channel = feishu;
  target = (text "receiveId", str (text "ou_1")) ∷ [];
  content = text "hello!";
  content_hash = text "hello!";
  status = CommunicationStatus.queued;
  requested_by = text "legal";
  correlation_id = text "c";
  work_item_id = none;
  external_message_id = none;
  attempts = 0;
  last_error = none;
  queued_at = some (utc_now 5);
  sent_at = none;
  version = 1;
}

is_sent :
    create_from_approved_review plain 9 agreed verdict (text "legal") (text "c") 5 ≡ ok outgoing
unfolding create_from_approved_review strip lstrip rstrip is_space
is_sent = refl

abbrev calls : List Call
calls = submitting 1 3 ∷ reviewing approve_with_edits (some (text " hello!")) 1 ∷ []

does_run : run plain drafted calls ≡ agreed
unfolding run perform submit apply_review strip lstrip rstrip is_space
does_run = refl

history-IsSound_example : IsSound (run plain drafted calls)
history-IsSound_example = history-IsSound plain render 1 reply calls is_drafted

approved_is_sendable_example :
    (c : Communication) × (create_from_approved_review plain 9 agreed verdict
        (text "legal")
        (text "c")
        5
      ≡ ok c)
    × (c.content ≡ text "hello!")
approved_is_sendable_example =
    approved_is_sendable plain pending approve_with_edits (some (text " hello!")) 1 agreed
      (text "hello!") 9 verdict (text "legal") (text "c") 5 is_agreed refl refl

abbrev forged : ReviewRecord
forged = record verdict { final_content = some (text "bye") }

is_sent_after :
    create_from_approved_review plain 9
      (run plain drafted calls)
      verdict
      (text "legal")
      (text "c")
      5
    ≡ ok outgoing
is_sent_after = rw does_run is_sent

sent-HasApproval_example : HasApproval plain drafted calls (text "hello!")
sent-HasApproval_example =
    sent-HasApproval plain render 1 reply drafted calls 9 verdict (text "legal") (text "c") 5
      outgoing is_drafted is_sent_after
