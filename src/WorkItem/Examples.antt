-- ===== src/WorkItem/Examples.antt =====
-- A work item at work: the theorems about work items at concrete inputs.
use legal_workbench.Prelude.{
  ◌≡◌, ◌≢◌, refl, true, false, none, some, [], ◌∷◌, text, utc_now, ok, err, succeeds,
  entity_version_conflict, strip_or_none, strip, lstrip, rstrip, is_space, ◌↔◌,
}
use legal_workbench.Prelude.Int.{pos}
use legal_workbench.WorkItem.Enums.{
  start, reopen, pending_review, high, system, in_progress, todo, done,
}
use legal_workbench.WorkItem.{WorkItem, NewWorkItem, ActionRequest, create, apply, dispatch}
use legal_workbench.WorkItem.Invariant.{IsConsistent, apply-IsConsistent, create-IsConsistent}
use legal_workbench.WorkItem.Transitions.{IsAccepted, apply-succeeds_iff}
use legal_workbench.WorkItem.Versions.{
  act, touch, perform, run, history-IsConsistent, stale_call_refused, terminal_only-Reopens,
  never_pending_review,
}

abbrev draft : NewWorkItem
draft = record {
  matter_id = 7;
  title = text " Review contract ";
  owner_id = text "legal";
  priority = high;
  priority_source = system;
  next_action = text "read";
  priority_reasons = [];
  ai_suggested_priority = none;
  estimated_minutes = some (pos 30);
  planned_complete_at = none;
  sequence_order = pos 0;
}

abbrev fresh : WorkItem
fresh = record {
  id = 1;
  matter_id = 7;
  title = text "Review contract";
  owner_id = text "legal";
  priority = high;
  priority_source = system;
  next_action = text "read";
  status = todo;
  collaborator_ids = [];
  ai_suggested_priority = none;
  priority_reasons = [];
  override_reason = none;
  estimated_minutes = some (pos 30);
  waiting_party_id = none;
  waiting_reason = none;
  waiting_since = none;
  paused_reason = none;
  is_blocked = false;
  blocker_reason = none;
  blocker_owner_id = none;
  planned_start_at = none;
  planned_complete_at = none;
  completed_at = none;
  cancelled_at = none;
  cancel_reason = none;
  sequence_order = pos 0;
  priority_confirmed_by = none;
  priority_confirmed_at = none;
  version = 1;
}

created : create 1 draft ≡ ok fresh
unfolding create strip lstrip rstrip is_space
created = refl

abbrev starting : ActionRequest
starting = record {
  action = start;
  actor_id = text "legal";
  reason = none;
  expected_version = 1;
  open_dependencies = [];
  owner_id = none;
  deadline = none;
  next_action = none;
  waiting_party_id = none;
  blocker_owner_id = none;
}

abbrev started : WorkItem
started = record fresh { status = in_progress; planned_start_at = some (utc_now 5); version = 2 }

abbrev finished : WorkItem
finished = record started { status = done; completed_at = some (utc_now 9); version = 3 }

abbrev reopening : ActionRequest
reopening = record starting { action = reopen; reason = some (text "again"); expected_version = 3 }

abbrev reopened : WorkItem
reopened = record finished { status = todo; completed_at = none; version = 4 }

does_start : apply fresh starting 5 ≡ ok started
unfolding apply dispatch strip_or_none strip lstrip rstrip is_space
does_start = refl

does_reopen : apply finished reopening 11 ≡ ok reopened
unfolding apply dispatch strip_or_none strip lstrip rstrip is_space
does_reopen = refl

does_perform : perform finished (act reopening 11) ≡ ok reopened
unfolding perform
does_perform = does_reopen

apply-IsConsistent_example : IsConsistent started
apply-IsConsistent_example =
    apply-IsConsistent fresh starting 5 (create-IsConsistent 1 draft created) does_start

apply-succeeds_iff_example : (succeeds (apply fresh starting 5) ≡ true) ↔ IsAccepted fresh starting
apply-succeeds_iff_example = apply-succeeds_iff fresh starting 5

history-IsConsistent_example :
    IsConsistent (run fresh (act starting 5 ∷ touch 2 ∷ act starting 6 ∷ []))
history-IsConsistent_example =
    history-IsConsistent 1 draft (act starting 5 ∷ touch 2 ∷ act starting 6 ∷ []) created

stale_call_refused_example : perform started (touch 1) ≡ err entity_version_conflict
stale_call_refused_example = stale_call_refused fresh starting 5 (touch 1) does_start refl

terminal_only-Reopens_example : reopening.action ≡ reopen
terminal_only-Reopens_example = terminal_only-Reopens finished (act reopening 11) refl does_perform

never_pending_review_example : (run fresh (act starting 5 ∷ [])).status ≢ pending_review
never_pending_review_example = never_pending_review 1 draft (act starting 5 ∷ []) created
