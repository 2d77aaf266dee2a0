-- ===== src/AnalysisGate/Pending.antt =====
-- Requests of the gate between the transactions of the dispatcher and the events of other writers.
use legal_workbench.Prelude.{
  Codec, Result, ok, err, Result-cases, lookup_error, is_some, ℕ, ◌+◌, ◌≤◌, ◌≡◌, refl, Bool, true,
  false, not, ◌&&◌, Option, none, some, List, [], ◌∷◌, ◌++◌, Text, text, eq, text_eq, is_none, any,
  keep, length, find_row, update_row, if◌then◌else◌, DateTime, arith, Bool-cases, inl, inr, take,
  sort_by,
}
use legal_workbench.Prelude.Values.{Value}
use legal_workbench.Audit.{ActorId, OutboxEvent, IdempotencyRecord, get_record}
use legal_workbench.Outbox.Requeue.{
  requeue_dead_letter, requeue_found, requeue_row, replayed_id, requeued_row, requeue_operation,
  RequeueIds, RequeuedDeadLetter,
}
use legal_workbench.Eligibility.{evaluate}
use legal_workbench.Feishu.Message.{FeishuMessage}
use legal_workbench.Outbox.{
  claim_batch, lock_row, lock_rows, is_claimable, occurs_before, mark_published, published_row,
  record_failure, fail_found, fail_row, retried_row, dead_row,
}
use legal_workbench.Outbox.Model.{
  OutboxDeadLetterModel, dead_letter_id, Db, Settings, OutboxEventModel, ClaimedOutboxEvent,
  event_id, message_id, find_event,
}
use legal_workbench.AnalysisGate.{
  AnalysisRequest, analysis_event, is_pending, exists_pending, added, analysis_request,
  request_found, request_if_allowed,
}

-- The requests for the analysis of a message that are still to be published.
abbrev pub pending_count : ℕ → List OutboxEventModel → ℕ
pending_count a ms = length (keep (is_pending analysis_event a) ms)

-- An assignment that makes no event pending.
abbrev NeverRevives : (OutboxEventModel → OutboxEventModel) → Type 0
NeverRevives f =
    (a : ℕ) (m : OutboxEventModel)
    → is_pending analysis_event a (f m) ≡ true
    → is_pending analysis_event a m ≡ true

update-pending :
    (i : ℕ) (f : OutboxEventModel → OutboxEventModel) (a : ℕ) (ms : List OutboxEventModel)
    → NeverRevives f
    → pending_count a (update_row event_id i f ms) ≤ pending_count a ms
update-pending i f a [] h = omega arith
update-pending i f a (m ∷ ms) h =
    let rest = update-pending i f a ms h in
    elim (Bool-cases (is_pending analysis_event a (f m))) [
      | inl e ↦ ground (arith, rest, h a m e, e)
      | inr e ↦ ground (arith, rest, e)
    ]

lock_rows-pending :
    (s : Settings) (now : DateTime) (a : ℕ) (selected ms : List OutboxEventModel)
    → pending_count a (lock_rows s now selected ms) ≤ pending_count a ms
unfolding lock_rows lock_row
lock_rows-pending s now a [] ms = omega arith
lock_rows-pending s now a (m ∷ selected) ms = omega (
  arith,
  lock_rows-pending s now a selected (update_row event_id m.id (lock_row s now) ms),
  update-pending m.id (lock_row s now) a ms (λ b k h. h),
)

dead_row-NeverRevives :
    (attempts : ℕ) (error : Text) (now : DateTime) → NeverRevives (dead_row attempts error now)
dead_row-NeverRevives attempts error now a m h = ground arith

published_row-NeverRevives : (now : DateTime) → NeverRevives (published_row now)
published_row-NeverRevives now a m h = ground arith

fail_found-pending :
    (s : Settings) (e : ClaimedOutboxEvent) (error : Text) (dead_id : ℕ) (now : DateTime) (a : ℕ)
    (o : Option OutboxEventModel) (db : Db)
    → pending_count a (fail_found s e error dead_id now o db).events ≤ pending_count a db.events
unfolding fail_row
fail_found-pending s e error dead_id now a none db = omega arith
fail_found-pending s e error dead_id now a (some m) db = ground (
  arith,
  update-pending e.id (dead_row (e.attempts + 1) (take 4000 error) now) a db.events
      (dead_row-NeverRevives (e.attempts + 1) (take 4000 error) now),
  update-pending e.id (retried_row s (e.attempts + 1) (take 4000 error) now) a db.events
      (λ b k h. h),
)

pending_count-zero :
    (a : ℕ) (ms : List OutboxEventModel)
    → any (is_pending analysis_event a) ms ≡ false
    → pending_count a ms ≡ 0
pending_count-zero a [] h = refl
pending_count-zero a (m ∷ ms) h = ground (arith, pending_count-zero a ms)

pending_count-snoc :
    (a : ℕ) (ms : List OutboxEventModel) (m : OutboxEventModel)
    → pending_count a (ms ++ m ∷ [])
      ≡ pending_count a ms + (if is_pending analysis_event a m then 1 else 0)
pending_count-snoc a [] m = ground arith
pending_count-snoc a (x ∷ ms) m = ground (arith, pending_count-snoc a ms m)

-- A transaction of the gate or of the dispatcher, or another writer's event that goes to the outbox
-- without a look at what is pending, as the requests of people do.
pub data Call : Type 0 where
  request : AnalysisRequest → (event_id : ℕ) → (now : DateTime) → Call
  claim : Settings → (is_skipped : ℕ → Bool) → (now : DateTime) → Call
  publish : (event_id : ℕ) → (now : DateTime) → Call
  fail : Settings → ClaimedOutboxEvent → (error : Text) → (dead_id : ℕ) → (now : DateTime) → Call
  requeue :
      (dead_letter_id : ℕ)
      → ActorId
      → (actor_source correlation_id idempotency_key : Text) → RequeueIds
      → Call
  insert : OutboxEvent → Call

-- The requests for the analysis of a message that a call may add unchecked.
abbrev pub unchecked : (message_id : ℕ) → Call → ℕ
unchecked a (requeue i actor source correlation key ids) = 1
unchecked a (insert e) = if is_pending analysis_event a (added e) then 1 else 0
unchecked a _ = 0

abbrev pub unchecked_count : (message_id : ℕ) → List Call → ℕ
unchecked_count a [] = 0
unchecked_count a (call ∷ calls) = unchecked a call + unchecked_count a calls

abbrev pub requeued : Db → Result (Db × RequeuedDeadLetter) → Db
requeued db (ok (db', r)) = db'
requeued db (err e) = db

module _ (uuid : Codec ℕ) (sha256 : Text → Text) (render : Value → Text) where
  unfoldable pub perform : Call → Db → Db
  unfolding request_if_allowed claim_batch mark_published record_failure requeue_dead_letter added
  perform (request r i now) db = (request_if_allowed uuid.show r i now db).0
  perform (claim s is_skipped now) db = (claim_batch s is_skipped now db).0
  perform (publish i now) db = mark_published i now db
  perform (fail s e error dead_id now) db = record_failure s e error dead_id now db
  perform (requeue i actor source correlation key ids) db =
      requeued db (requeue_dead_letter uuid sha256 render i actor source correlation key ids db)
  perform (insert e) db = record db { events = db.events ++ added e ∷ [] }

  unfoldable pub run : List Call → Db → Db
  unfolding perform
  run [] db = db
  run (call ∷ calls) db = run calls (perform call db)

  request_found-pending :
      (r : AnalysisRequest) (i : ℕ) (now : DateTime) (a bound : ℕ) (o : Option FeishuMessage)
      (db : Db)
      → 1 ≤ bound
      → pending_count a db.events ≤ bound
      → pending_count a (request_found uuid.show r i now o db).0.events ≤ bound
  unfolding evaluate exists_pending added
  request_found-pending r i now a bound none db some_bound h = h
  request_found-pending r i now a bound (some m) db some_bound h =
      let grown = pending_count-snoc a db.events (added (analysis_request uuid.show r i now m)) in
      ground (arith, h, grown, pending_count-zero r.message_id db.events)

  added-pending :
      (a bound : ℕ) (ms : List OutboxEventModel) (m : OutboxEventModel)
      → pending_count a ms ≤ bound
      → pending_count a (ms ++ m ∷ []) ≤ bound + 1
  added-pending a bound ms m h = ground (arith, pending_count-snoc a ms m)

  requeue_found-pending :
      (i : ℕ) (actor : ActorId) (source correlation key : Text) (ids : RequeueIds)
      (d : OutboxDeadLetterModel) (o : Option IdempotencyRecord) (a bound : ℕ) (db : Db)
      → pending_count a db.events ≤ bound
      → pending_count a
          (requeued db
            (requeue_found uuid sha256 render i actor source correlation key ids d o db)).events
        ≤ bound + 1
  unfolding requeue_row
  requeue_found-pending i actor source correlation key ids d (some r) a bound db h =
      elim (Result-cases (replayed_id uuid sha256 render r)) [
        | inl (e, q) ↦ rw q (omega (arith, h))
        | inr (x, q) ↦ rw q (omega (arith, h))
      ]
  requeue_found-pending i actor source correlation key ids d none a bound db h =
      elim (Bool-cases (is_some d.requeued_at)) [
        | inl q ↦ rw q (omega (arith, h))
        | inr q ↦ rw q (added-pending a bound db.events (requeued_row ids d) h)
      ]

  requeue-pending :
      (i : ℕ) (actor : ActorId) (source correlation key : Text) (ids : RequeueIds) (a bound : ℕ)
      (db : Db)
      → pending_count a db.events ≤ bound
      → pending_count a
          (requeued db
            (requeue_dead_letter uuid sha256 render i actor source correlation key ids db)).events
        ≤ bound + 1
  unfolding requeue_dead_letter
  requeue-pending i actor source correlation key ids a bound db h =
      elim (find_row dead_letter_id db.dead_letters i)
        as (λ o.
          pending_count a
            (requeued db (elim o [
              | none ↦ err lookup_error
              | some d ↦
                  requeue_found uuid sha256 render i actor source correlation key ids d
                    (get_record db.idempotency (requeue_operation uuid sha256 render i) key) db
            ])).events
          ≤ bound + 1) [
            | none ↦ omega (arith, h)
            | some d ↦
                requeue_found-pending i actor source correlation key ids d
                  (get_record db.idempotency (requeue_operation uuid sha256 render i) key) a bound
                  db h
          ]

  perform-pending :
      (call : Call) (a bound : ℕ) (db : Db)
      → 1 ≤ bound
      → pending_count a db.events ≤ bound
      → pending_count a (perform call db).events ≤ bound + unchecked a call
  unfolding perform request_if_allowed claim_batch mark_published record_failure
  perform-pending (request r i now) a bound db some_bound h = omega (
    arith,
    request_found-pending r i now a bound (find_row message_id db.messages r.message_id) db
        some_bound h,
  )
  perform-pending (claim s is_skipped now) a bound db some_bound h = omega (
    arith,
    h,
    lock_rows-pending s now a
        (take s.outbox_batch_size
          (sort_by occurs_before (keep (is_claimable is_skipped now) db.events)))
        db.events,
  )
  perform-pending (publish i now) a bound db some_bound h =
      omega (
        arith,
        h,
        update-pending i (published_row now) a db.events (published_row-NeverRevives now),
      )
  perform-pending (fail s e error dead_id now) a bound db some_bound h =
      omega (arith, h, fail_found-pending s e error dead_id now a (find_event db e.id) db)
  perform-pending (requeue i actor source correlation key ids) a bound db some_bound h =
      requeue-pending i actor source correlation key ids a bound db h
  perform-pending (insert e) a bound db some_bound h =
      omega (arith, h, pending_count-snoc a db.events (added e))

  -- The gate never adds a second request for the analysis of a message that is neither published nor
  -- given up. However its requests follow one another, between claims, publications, failures and
  -- requeues of the dispatcher and events of other writers, a message has at most as many such requests
  -- as a bound that held before, which is one or more, with one more for each requeue and for each
  -- request for this message by another writer: these are added without a look at what is pending.
  pub one_pending_request :
      (calls : List Call) (a bound : ℕ) (db : Db)
      → 1 ≤ bound
      → pending_count a db.events ≤ bound
      → pending_count a (run calls db).events ≤ bound + unchecked_count a calls
  unfolding run
  one_pending_request [] a bound db some_bound h = omega (arith, h)
  one_pending_request (call ∷ calls) a bound db some_bound h = omega (
    arith,
    one_pending_request calls a (bound + unchecked a call) (perform call db) (omega arith)
        (perform-pending call a bound db some_bound h),
  )

  -- What the gate asks of a message that is stored.
  abbrev pub is_requestable : AnalysisRequest → Db → FeishuMessage → Bool
  is_requestable r db m =
      is_none m.recalled_at
      && eq m.analysis_disposition (text "analyze")
      && not (exists_pending analysis_event r.message_id db)

  request_found_cases :
      (r : AnalysisRequest) (i : ℕ) (now : DateTime) (m : FeishuMessage) (db : Db)
      → ((request_found uuid.show r i now (some m) db).1.requested ≡ is_requestable r db m)
        × (((request_found uuid.show r i now (some m) db).0) ≡ (
            if is_requestable r db m
            then record db {
              events = db.events ++ added (analysis_request uuid.show r i now m) ∷ [];
            }
            else db))
  unfolding evaluate exists_pending added
  request_found_cases r i now m db = elim (Bool-cases (is_requestable r db m)) [
    | inl e ↦ (ground arith, ground arith)
    | inr e ↦ (ground arith, ground arith)
  ]

  -- The gate answers that it requested the analysis of a stored message exactly if the message was
  -- not recalled, is to be analysed, and has no pending request; then it adds one outbox event, and
  -- else it writes nothing.
  pub request_if_allowed_cases :
      (r : AnalysisRequest) (i : ℕ) (now : DateTime) (m : FeishuMessage) (db : Db)
      → find_row message_id db.messages r.message_id ≡ some m
      → ((request_if_allowed uuid.show r i now db).1.requested ≡ is_requestable r db m)
        × (((request_if_allowed uuid.show r i now db).0) ≡ (
            if is_requestable r db m
            then record db {
              events = db.events ++ added (analysis_request uuid.show r i now m) ∷ [];
            }
            else db))
  unfolding request_if_allowed
  request_if_allowed_cases r i now m db h = rw h (request_found_cases r i now m db)
