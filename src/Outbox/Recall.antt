-- ===== src/Outbox/Recall.antt =====
-- What an attempt to publish does: the effects on the event, and the guard for recalled messages.
use legal_workbench.Prelude.{
  ◌+◌, ◌≡◌, refl, Bool, true, false, ◌&&◌, Option, none, some, [], ◌∷◌, Text, text, DateTime, ok,
  eq, nat_eq, text_eq, is_some, length, length-append, find_row,
}
use legal_workbench.Audit.{ActorId}
use legal_workbench.Feishu.Message.{FeishuMessage}
use legal_workbench.Eligibility.{evaluate}
use legal_workbench.Outbox.Model.{ClaimedOutboxEvent, Db, message_id}
use legal_workbench.Outbox.Dispatch.{
  World, feishu_message, handler_of, handle, dispatch, dispatch_feishu_message_analysis,
  evaluate_and_audit, guard_event, guard_found, request_source, request_actor, flag, send_allowed,
  Guarded,
}

-- The request names a user as its source, and asks for the override.
abbrev pub is_overridden : World → ClaimedOutboxEvent → Bool
is_overridden w e =
    eq (request_source w e) (text "user") && flag e.payload (text "overrideRecalled")

evaluate_recalled :
    (recalled_at : Option DateTime) (source : Text) (override : Bool)
    → is_some recalled_at ≡ true
    → (eq source (text "user") && override) ≡ false
    → evaluate recalled_at source override
      ≡ record { allowed = false; reason = text "message_recalled"; manual_override = false }
unfolding evaluate
evaluate_recalled none source override r o = cc
evaluate_recalled (some d) source override r o = rw o refl

guard_refuses :
    (w : World) (actor : ActorId) (source : Text) (override : Bool) (correlation : Text)
    (o : Option FeishuMessage) (db : Db) (m : FeishuMessage)
    → o ≡ some m
    → is_some m.recalled_at ≡ true
    → (eq source (text "user") && override) ≡ false
    → ((guard_found w actor source override correlation o db).0.tasks ≡ db.tasks)
      × (((guard_found w actor source override correlation o db).1.allowed ≡ false)
          × (length (guard_found w actor source override correlation o db).0.audit_events
              ≡ length db.audit_events + 1))
guard_refuses w actor source override correlation o db m f r k =
    rw (f, evaluate_recalled m.recalled_at source override r k)
      (refl, (refl, length-append {0} db.audit_events (_ ∷ [])))

-- The effect of a decision that does not allow the analysis.
refused_sends_nothing :
    (w : World) (e : ClaimedOutboxEvent) (g : Guarded)
    → g.1.allowed ≡ false
    → send_allowed w e g ≡ (g.0, ok tt)
refused_sends_nothing w e (db, d) h = rw h refl

-- A recalled message is not handed to an analysis, unless the request comes from a user and asks for
-- the override: no task is sent, the refusal is audited, and the event counts as handled.
pub recalled_is_suppressed :
    (w : World) (e : ClaimedOutboxEvent) (db : Db) (m : FeishuMessage)
    → handler_of e.event_type ≡ some feishu_message
    → find_row message_id db.messages e.aggregate_id ≡ some m
    → is_some m.recalled_at ≡ true
    → is_overridden w e ≡ false
    → ((dispatch w e db).0.tasks ≡ db.tasks)
      × (((dispatch w e db).1 ≡ ok tt)
          × (length (dispatch w e db).0.audit_events ≡ length db.audit_events + 1))
unfolding dispatch handle dispatch_feishu_message_analysis guard_event evaluate_and_audit
recalled_is_suppressed w e db m k f r o =
    let (tasks, (refused, audits)) =
      guard_refuses w (request_actor w e) (request_source w e)
        (flag e.payload (text "overrideRecalled")) e.correlation_id
        (find_row message_id db.messages e.aggregate_id) db m f r o in
    rw (k, refused_sends_nothing w e (guard_event w e db) refused) (tasks, (refl, audits))
