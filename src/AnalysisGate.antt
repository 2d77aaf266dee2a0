-- ===== src/AnalysisGate.antt =====
-- application/automatic_analysis_gate.py: AutomaticAnalysisGate, with `exists_pending` and `add` of
-- SqlAlchemyOutboxRepository (infrastructure/repositories.py). Requests for one message come one after
-- the other, since each first locks the message's key.
pub mod Pending
mod Examples
use legal_workbench.Prelude.{
  ℕ, ◌<◌, Bool, true, false, not, ◌&&◌, ◌||◌, Option, none, some, List, [], ◌∷◌, ◌++◌, Text, text,
  eq, text_eq, nat_eq, ◌==◌, ltb, is_none, any, find_row, if◌then◌else◌, DateTime,
}
use legal_workbench.Prelude.Values.{Value, str, bool, Dict}
use legal_workbench.Audit.{ActorId, OutboxEvent}
use legal_workbench.Eligibility.{evaluate}
use legal_workbench.Feishu.Message.{FeishuMessage}
use legal_workbench.Outbox.Model.{Db, OutboxEventModel, message_id}

pub record AutomaticAnalysisDecision : Type 0 where
  pub requested : Bool
  pub reason : Text

-- The arguments of a request.
pub record AnalysisRequest : Type 0 where
  pub message_id : ℕ
  pub actor_id : Text
  pub actor_source : Text
  pub correlation_id : Text
  pub force_new_run : Bool

abbrev pub analysis_event : Text
analysis_event = text "FeishuMessageAnalysisRequested"

-- An event that was neither published nor given up.
abbrev pub is_pending : (event_type : Text) → (aggregate_id : ℕ) → OutboxEventModel → Bool
is_pending event_type aggregate_id m =
    eq m.event_type event_type
    && m.aggregate_id == aggregate_id
    && is_none m.published_at
    && is_none m.dead_lettered_at

unfoldable pub exists_pending : (event_type : Text) → (aggregate_id : ℕ) → Db → Bool
exists_pending event_type aggregate_id db = any (is_pending event_type aggregate_id) db.events

-- The row that `add` makes of an event.
unfoldable pub added : OutboxEvent → OutboxEventModel
added e = record {
  id = e.id;
  event_type = e.event_type;
  aggregate_type = e.aggregate_type;
  aggregate_id = e.aggregate_id;
  payload = e.payload;
  correlation_id = e.correlation_id;
  occurred_at = e.occurred_at;
  published_at = none;
  attempts = 0;
  last_error = none;
  locked_until = none;
  locked_by = none;
  next_attempt_at = none;
  dead_lettered_at = none;
}

-- What the call answers, with the tables after it.
abbrev pub Answered : Type 0
Answered = Db × AutomaticAnalysisDecision

abbrev pub refuse : Text → Db → Answered
refuse reason db = (db, record { requested = false; reason = reason })

-- `show` is the text of a UUID.
module _ (show : ℕ → Text) where
  abbrev pub analysis_request :
      AnalysisRequest → (event_id : ℕ) → (now : DateTime) → FeishuMessage → OutboxEvent
  analysis_request r event_id now m = record {
    id = event_id;
    event_type = analysis_event;
    aggregate_type = text "feishu_message";
    aggregate_id = r.message_id;
    payload =
        (text "messageId", str (show r.message_id))
        ∷ (text "actorId", str r.actor_id)
        ∷ (text "actorSource", str r.actor_source)
        ∷ (text "forceNewRun", bool (r.force_new_run || ltb 1 m.version))
        ∷ [];
    correlation_id = r.correlation_id;
    occurred_at = now;
  }

  abbrev pub request_found :
      AnalysisRequest → (event_id : ℕ) → (now : DateTime) → Option FeishuMessage → Db → Answered
  unfolding evaluate exists_pending added
  request_found r event_id now none db = refuse (text "message_not_found") db
  request_found r event_id now (some m) db =
      let eligibility = evaluate m.recalled_at r.actor_source false in
      if not eligibility.allowed
      then refuse eligibility.reason db
      else if not (eq m.analysis_disposition (text "analyze"))
      then refuse (text "message_disposition_" ++ m.analysis_disposition) db
      else if exists_pending analysis_event r.message_id db
      then refuse (text "analysis_already_pending") db
      else (
        record db { events = db.events ++ added (analysis_request r event_id now m) ∷ [] },
        record { requested = true; reason = text "analysis_requested" },
      )

  unfoldable pub request_if_allowed :
      AnalysisRequest → (event_id : ℕ) → (now : DateTime) → Db → Answered
  unfolding request_found
  request_if_allowed r event_id now db =
      request_found r event_id now (find_row message_id db.messages r.message_id) db
