-- ===== src/Outbox/Dispatch.antt =====
-- infrastructure/outbox.py: OUTBOX_HANDLERS, _dispatch and publish_batch, with the guard of
-- application/message_analysis_eligibility.py. What the task queue and the Feishu client answer is
-- an argument.
use legal_workbench.Prelude.{
  ℕ, Bool, false, not, ◌||◌, Option, none, some, List, [], ◌∷◌, ◌++◌, Text, text, DateTime, Result,
  ok, err, runtime_error, external_error, Error, if◌then◌else◌, nat_eq, text_eq, length, find_row,
}
use legal_workbench.Prelude.Values.{Value, str, Dict, get, truthy, str_or_empty}
use legal_workbench.Audit.{ActorId, audited_source}
use legal_workbench.Feishu.Message.{FeishuMessage}
use legal_workbench.Eligibility.{MessageAnalysisEligibilityDecision, evaluate}
use legal_workbench.Review.{Communication}
use legal_workbench.Outbox.{claim_batch, mark_published, record_failure}
use legal_workbench.Outbox.Model.{
  ClaimedOutboxEvent, Settings, Db, Task, document_extract, setup_codex_check, orchestrate,
  rerun_step, recover, process_message, message_id,
}
use legal_workbench.Outbox.Delivery.{Reply, send_communication}

pub data OutboxHandler : Type 0 where
  communication_send feishu_message document_extraction codex_setup_check : OutboxHandler
  legal_butler legal_agent_step_rerun legal_agent_recovery internal_notification : OutboxHandler

-- OUTBOX_HANDLERS
abbrev outbox_handlers : List (Text × OutboxHandler)
outbox_handlers =
    (text "CommunicationSendRequested", communication_send)
    ∷ (text "FeishuMessageReceived", internal_notification)
    ∷ (text "FeishuMessageAnalysisRequested", feishu_message)
    ∷ (text "FeishuMessageAttachmentsPending", internal_notification)
    ∷ (text "DocumentExtractionRequested", document_extraction)
    ∷ (text "CodexSetupCheckRequested", codex_setup_check)
    ∷ (text "LegalButlerRequested", legal_butler)
    ∷ (text "LegalAgentStepRerunRequested", legal_agent_step_rerun)
    ∷ (text "LegalAgentRecoveryRequested", legal_agent_recovery)
    ∷ (text "LegalMatterCreated", internal_notification)
    ∷ (text "MessageCandidateCreated", internal_notification)
    ∷ (text "MessageCandidateResolved", internal_notification)
    ∷ (text "WorkItemCreated", internal_notification)
    ∷ (text "ReviewPackageCreated", internal_notification)
    ∷ (text "ReviewPackageReviewed", internal_notification)
    ∷ (text "DeadlineCreated", internal_notification)
    ∷ (text "WorkItemDependencyCreated", internal_notification)
    ∷ (text "WorkItemPriorityConfirmed", internal_notification)
    ∷ []

unfoldable pub handler_of : Text → Option OutboxHandler
handler_of event_type = get outbox_handlers event_type

-- What is outside: whether the task queue takes a task, the answers of the Feishu client, str() of
-- values that are no strings, the clock, and the id of an audit event.
pub record World : Type 0 where
  pub takes : Task → Bool
  pub client : Communication → Reply
  pub render : Value → Text
  pub now : DateTime
  pub audit_id : ℕ

-- celery_app.send_task
abbrev pub send_task : World → Task → Db → Db × Result (Unit {0})
send_task w t db =
    if w.takes t
    then (record db { tasks = db.tasks ++ t ∷ [] }, ok tt)
    else (db, err external_error)

-- `bool(payload.get(key, False))`
abbrev pub flag : Dict → Text → Bool
flag d k = elim (get d k) [ none ↦ false | some v ↦ truthy v ]

-- `str(payload.get(key) or default)`
abbrev pub str_or : (Value → Text) → Option Value → Text → Text
str_or render none default = default
str_or render (some v) default = if truthy v then str_or_empty render (some v) else default

abbrev not_found : MessageAnalysisEligibilityDecision
not_found = record { allowed = false; reason = text "message_not_found"; manual_override = false }

abbrev override_event : Bool → Text
override_event manual =
    if manual
    then text "recalled_message_manual_analysis_override_dispatched"
    else text "recalled_message_automatic_analysis_dispatch_suppressed"

abbrev pub audited :
    World
    → ActorId
    → (actor_source correlation_id : Text) → FeishuMessage
    → MessageAnalysisEligibilityDecision
    → Db
    → Db
audited w actor source correlation m d db =
    if not d.allowed || d.manual_override
    then record db {
      audit_events =
          db.audit_events
          ++ record {
            id = w.audit_id;
            aggregate_type = text "feishu_message";
            aggregate_id = m.id;
            event_type = override_event d.manual_override;
            actor_id = actor.value;
            payload =
                (text "reason", str d.reason) ∷ (text "phase", str (text "outbox_dispatch")) ∷ [];
            correlation_id = correlation;
            actor_source = audited_source actor source;
            created_at = w.now;
          }
            ∷ [];
    }
    else db

-- The tables, and the decision.
abbrev pub Guarded : Type 0
Guarded = Db × MessageAnalysisEligibilityDecision

abbrev pub guard_found :
    World
    → ActorId
    → (actor_source : Text) → (override_recalled : Bool) → (correlation_id : Text)
    → Option FeishuMessage
    → Db
    → Guarded
guard_found w actor source override correlation none db = (db, not_found)
guard_found w actor source override correlation (some m) db =
    let d = evaluate m.recalled_at source override in (audited w actor source correlation m d db, d)

-- MessageAnalysisDispatchGuard
unfoldable pub evaluate_and_audit :
    World
    → (message_id : ℕ) → ActorId
    → (actor_source : Text) → (override_recalled : Bool) → (correlation_id : Text) → Db
    → Guarded
unfolding evaluate audited_source
evaluate_and_audit w i actor source override correlation db =
    guard_found w actor source override correlation (find_row message_id db.messages i) db

abbrev pub analysis_task : World → ClaimedOutboxEvent → Task
analysis_task w e =
    process_message e.aggregate_id
      (str_or w.render (get e.payload (text "actorId")) (text "feishu-connector"))
      (str_or w.render (get e.payload (text "actorSource")) (text "integration")) e.correlation_id
      (flag e.payload (text "forceNewRun")) (flag e.payload (text "recoverInterruptedRun"))
      (flag e.payload (text "overrideRecalled"))

abbrev pub send_allowed : World → ClaimedOutboxEvent → Guarded → Db × Result (Unit {0})
send_allowed w e (db, d) = if d.allowed then send_task w (analysis_task w e) db else (db, ok tt)

abbrev pub request_source : World → ClaimedOutboxEvent → Text
request_source w e = str_or w.render (get e.payload (text "actorSource")) (text "integration")

abbrev pub request_actor : World → ClaimedOutboxEvent → ActorId
request_actor w e = record {
  value = str_or w.render (get e.payload (text "actorId")) (text "feishu-connector");
  identity_source = none;
}

unfoldable pub guard_event : World → ClaimedOutboxEvent → Db → Guarded
unfolding evaluate_and_audit
guard_event w e db =
    evaluate_and_audit w e.aggregate_id (request_actor w e) (request_source w e)
      (flag e.payload (text "overrideRecalled")) e.correlation_id db

unfoldable pub dispatch_feishu_message_analysis :
    World → ClaimedOutboxEvent → Db → Db × Result (Unit {0})
unfolding guard_event
dispatch_feishu_message_analysis w e db = send_allowed w e (guard_event w e db)

unfoldable pub handle : World → OutboxHandler → ClaimedOutboxEvent → Db → Db × Result (Unit {0})
unfolding send_communication dispatch_feishu_message_analysis
handle w communication_send e db = send_communication e.aggregate_id w.client w.now db
handle w feishu_message e db = dispatch_feishu_message_analysis w e db
handle w document_extraction e db =
    send_task w (document_extract e.aggregate_id e.correlation_id) db
handle w codex_setup_check e db = send_task w (setup_codex_check e.aggregate_id e.correlation_id) db
handle w legal_butler e db = send_task w (orchestrate e.payload e.correlation_id) db
handle w legal_agent_step_rerun e db = send_task w (rerun_step e.payload e.correlation_id) db
handle w legal_agent_recovery e db = send_task w (recover e.payload e.correlation_id) db
handle w internal_notification e db = (db, ok tt)

abbrev pub handle? : World → Option OutboxHandler → ClaimedOutboxEvent → Db → Db × Result (Unit {0})
unfolding handle
handle? w none e db = (db, err runtime_error)
handle? w (some h) e db = handle w h e db

unfoldable pub dispatch : World → ClaimedOutboxEvent → Db → Db × Result (Unit {0})
unfolding handle
dispatch w e db = handle? w (handler_of e.event_type) e db

-- The text of an exception.
pub record Failure : Type 0 where
  pub dead_id : ℕ
  pub describe : Error → Text

abbrev pub settle : Settings → World → Failure → ClaimedOutboxEvent → Db × Result (Unit {0}) → Db
settle s w f e (db, ok u) = mark_published e.id w.now db
settle s w f e (db, err x) = record_failure s e (f.describe x) f.dead_id w.now db

-- The body of the loop of publish_batch.
unfoldable pub publish : Settings → World → Failure → ClaimedOutboxEvent → Db → Db
unfolding dispatch
publish s w f e db = settle s w f e (dispatch w e db)

-- The loop, where each event meets the world as it is then.
unfoldable pub publish_all :
    Settings → (ClaimedOutboxEvent → World × Failure) → List ClaimedOutboxEvent → Db → Db
unfolding publish
publish_all s world [] db = db
publish_all s world (e ∷ es) db = publish_all s world es (publish s (world e).0 (world e).1 e db)

-- The tables, and the number of events.
unfoldable pub publish_batch :
    Settings
    → (is_skipped : ℕ → Bool) → (now : DateTime) → (ClaimedOutboxEvent → World × Failure)
    → Db
    → Db × ℕ
unfolding claim_batch publish_all
publish_batch s is_skipped now world db =
    let (db', es) = claim_batch s is_skipped now db in (publish_all s world es db', length es)
