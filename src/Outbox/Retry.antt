-- ===== src/Outbox/Retry.antt =====
-- Failed events are tried again, later each time, and end as dead letters.
use legal_workbench.Prelude.{
  ℕ, zero, suc, ◌+◌, ◌-◌, ◌*◌, ◌^◌, ◌≤◌, ◌≡◌, refl, ap, ◌∙◌, true, ◌||◌, Option, none, some, List,
  [], ◌∷◌, Text, DateTime, Result, ok, err, runtime_error, leb, if◌then◌else◌, nat_eq, text_eq,
  arith, is_some, length, take, find_row, update_row, find-update, map_option,
}
use native.Mathlib.Omega.{pow_step}
use legal_workbench.Outbox.{
  retry_delay, published_row, retried_row, dead_row, record_failure, mark_published, claimed,
  fail_row,
}
use legal_workbench.Outbox.Model.{
  OutboxEventModel, ClaimedOutboxEvent, Settings, Db, event_id, find_event,
}
use legal_workbench.Outbox.Dispatch.{World, Failure, handler_of, dispatch, publish, settle}

-- Doubling.
scaled_power_grows : (b k : ℕ) → b * 2 ^ k ≤ b * 2 ^ suc k
scaled_power_grows b k = rw (pow_step 2 k) (grind arith)

pred_suc : (k : ℕ) → suc k - 1 ≡ k
pred_suc k = omega arith

find_same :
    (i : ℕ) (f : OutboxEventModel → OutboxEventModel)
    → ((m : OutboxEventModel) → (f m).id ≡ m.id)
    → (db : Db)
    → find_row event_id (update_row event_id i f db.events) i ≡ map_option f (find_event db i)
find_same i f keeps db = find-update event_id i i f keeps db.events ∙ ground arith

-- What record_failure leaves of the row of its event.
pub find-record_failure :
    (s : Settings) (e : ClaimedOutboxEvent) (error : Text) (dead_id : ℕ) (now : DateTime) (db : Db)
    {m : OutboxEventModel}
    → find_event db e.id ≡ some m
    → m.published_at ≡ none
    → find_event (record_failure s e error dead_id now db) e.id
      ≡ some (
          if leb s.outbox_max_attempts (e.attempts + 1)
          then dead_row (e.attempts + 1) (take 4000 error) now m
          else retried_row s (e.attempts + 1) (take 4000 error) now m)
unfolding record_failure fail_row
find-record_failure s e error dead_id now db h p = ground (
  arith,
  find_same e.id (dead_row (e.attempts + 1) (take 4000 error) now) (λ m. refl) db,
  find_same e.id (retried_row s (e.attempts + 1) (take 4000 error) now) (λ m. refl) db,
)

-- The delay before an attempt never falls and never passes the limit.
pub retry_delay_grows :
    (s : Settings) (a : ℕ)
    → (retry_delay s a ≤ retry_delay s (suc a)) × (retry_delay s a ≤ s.outbox_retry_max_seconds)
unfolding retry_delay
retry_delay_grows s zero = (omega arith, omega arith)
retry_delay_grows s (suc k) = (
  rw (pred_suc k, pred_suc (suc k))
      (omega (arith, scaled_power_grows s.outbox_retry_base_seconds k)),
  omega arith,
)

-- What one attempt to publish an event leaves of its row, by how the dispatch ends.
abbrev pub attempted :
    Settings
    → World
    → Failure
    → ClaimedOutboxEvent
    → OutboxEventModel
    → Result (Unit {0})
    → OutboxEventModel
attempted s w f e m (ok u) = published_row w.now m
attempted s w f e m (err x) =
    if leb s.outbox_max_attempts (e.attempts + 1)
    then dead_row (e.attempts + 1) (take 4000 (f.describe x)) w.now m
    else retried_row s (e.attempts + 1) (take 4000 (f.describe x)) w.now m

find-settle :
    (s : Settings) (w : World) (f : Failure) (e : ClaimedOutboxEvent) (db : Db)
    (r : Result (Unit {0})) {m : OutboxEventModel}
    → find_event db e.id ≡ some m
    → m.published_at ≡ none
    → find_event (settle s w f e (db, r)) e.id ≡ some (attempted s w f e m r)
unfolding mark_published
find-settle s w f e db (ok u) h p =
    ground (arith, find_same e.id (published_row w.now) (λ m. refl) db)
find-settle s w f e db (err x) h p = find-record_failure s e (f.describe x) f.dead_id w.now db h p

-- An attempt at an event that is there and not dead.
abbrev pub attempt? : Settings → World × Failure → Option OutboxEventModel → Db → Db
attempt? s t none db = db
attempt? s t (some m) db =
    if is_some m.published_at || is_some m.dead_lettered_at
    then db
    else publish s t.0 t.1 (claimed m) db

-- Attempts in a row at one event.
unfoldable pub attempts_at : Settings → ℕ → List (World × Failure) → Db → Db
attempts_at s i [] db = db
attempts_at s i (t ∷ ts) db = attempts_at s i ts (attempt? s t (find_event db i) db)

dispatch_unhandled :
    (w : World) (e : ClaimedOutboxEvent) (db : Db)
    → handler_of e.event_type ≡ none
    → dispatch w e db ≡ (db, err runtime_error)
unfolding dispatch
dispatch_unhandled w e db h = rw h refl

attempt_live :
    (s : Settings) (t : World × Failure) (db : Db) (m : OutboxEventModel)
    → m.published_at ≡ none
    → m.dead_lettered_at ≡ none
    → attempt? s t (some m) db ≡ publish s t.0 t.1 (claimed m) db
attempt_live s t db m p d = ground arith

publish_unhandled :
    (s : Settings) (t : World × Failure) (db : Db) (m : OutboxEventModel)
    → handler_of m.event_type ≡ none
    → publish s t.0 t.1 (claimed m) db ≡ settle s t.0 t.1 (claimed m) (db, err runtime_error)
unfolding publish
publish_unhandled s t db m n =
    ap (settle s t.0 t.1 (claimed m)) (dispatch_unhandled t.0 (claimed m) db n)

-- One attempt at an event without a handler.
find-attempt :
    (s : Settings) (t : World × Failure) (db : Db) (m : OutboxEventModel)
    → find_event db m.id ≡ some m
    → handler_of m.event_type ≡ none
    → m.published_at ≡ none
    → m.dead_lettered_at ≡ none
    → find_event (attempt? s t (find_event db m.id) db) m.id
      ≡ some (attempted s t.0 t.1 (claimed m) m (err runtime_error))
find-attempt s t db m h n p d =
    ap (λ o. find_event (attempt? s t o db) m.id) h
    ∙ ap (λ (x : Db). find_event x m.id) (attempt_live s t db m p d ∙ publish_unhandled s t db m n)
    ∙ find-settle s t.0 t.1 (claimed m) db (err runtime_error) h p

-- An event of a type that no handler is registered for is never published: as many attempts as are
-- left to it end as a dead letter.
pub unhandled_is_dead_lettered :
    (s : Settings) (ts : List (World × Failure)) (db : Db) (m : OutboxEventModel)
    → find_event db m.id ≡ some m
    → handler_of m.event_type ≡ none
    → m.published_at ≡ none
    → m.dead_lettered_at ≡ none
    → 1 ≤ length ts
    → m.attempts + length ts ≡ s.outbox_max_attempts
    → (m' : OutboxEventModel) × ((find_event (attempts_at s m.id ts db) m.id ≡ some m')
        × ((m'.published_at ≡ none)
            × ((is_some m'.dead_lettered_at ≡ true) × (m'.attempts ≡ s.outbox_max_attempts))))
unfolding attempts_at
unhandled_is_dead_lettered s [] db m h n p d l c = elim l [ ]
unhandled_is_dead_lettered s (t ∷ []) db m h n p d l c =
    let e = find-attempt s t db m h n p d in
    let error = take 4000 (t.1.describe runtime_error) in
    (dead_row (m.attempts + 1) error t.0.now m, (e ∙ ground arith, (p, (refl, omega (arith, c)))))
unhandled_is_dead_lettered s (t ∷ u ∷ ts) db m h n p d l c =
    let e = find-attempt s t db m h n p d in
    let error = take 4000 (t.1.describe runtime_error) in
    unhandled_is_dead_lettered s (u ∷ ts) (attempt? s t (find_event db m.id) db)
      (retried_row s (m.attempts + 1) error t.0.now m) (e ∙ ground arith) n p d (omega arith)
      (omega (arith, c))
