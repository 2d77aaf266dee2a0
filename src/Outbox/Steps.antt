-- ===== src/Outbox/Steps.antt =====
-- How the dispatcher's transactions interleave. A worker that sends is between
-- _mark_communication_sending and the transaction that records the answer; any worker may take its
-- next step, or stop for good, at any time.
use legal_workbench.Prelude.{
  ℕ, ◌+◌, ◌≤◌, ◌≡◌, refl, ◌∙◌, true, Option, none, some, List, [], ◌∷◌, ◌++◌, Text, text, DateTime,
  ok, eq, ◌==◌, leb, if◌then◌else◌, nat_eq, text_eq, inl, inr, arith, is_some, Bool-cases, take,
  find_row, find-update, map_option, Codec, ◌⊎◌,
}
use legal_workbench.Prelude.Values.{Value}
use legal_workbench.Audit.{ActorId}
use legal_workbench.Review.{Communication}
use legal_workbench.Review.Enums.{communication_status_eq}
use legal_workbench.Outbox.{
  record_failure, fail_row, fail_found, bury_communication, dead_communication,
}
use legal_workbench.Outbox.Requeue.{
  requeue_dead_letter, requeue_row, RequeueIds, RequeuedDeadLetter,
}
use legal_workbench.Outbox.Model.{
  Db, Settings, OutboxEventModel, ClaimedOutboxEvent, communication_id, find_communication,
  find_event,
}
use legal_workbench.Outbox.Delivery.{
  is_sendable, sending_row, sent_row, failed_row, set_communication, start_sending,
  mark_communication_sending, mark_communication_sent, mark_communication_failed,
}

-- The tables, and the communications that a call of the Feishu client is under way for.
pub record System : Type 0 where
  pub db : Db
  pub in_flight : List ℕ

unfoldable pub count : ℕ → List ℕ → ℕ
count i [] = 0
count i (x ∷ xs) = (if x == i then 1 else 0) + count i xs

-- The list without one occurrence.
unfoldable pub remove : ℕ → List ℕ → List ℕ
remove i [] = []
remove i (x ∷ xs) = let rest = x ∷ remove i xs in if x == i then xs else rest

-- One transaction of a worker, or its end.
pub data Step : System → System → Type 0 where
  begin :
      (s : System) (i : ℕ) (c : Communication) (db : Db)
      → mark_communication_sending i s.db ≡ ok (db, some c)
      → Step s (record { db = db; in_flight = i ∷ s.in_flight })
  deliver :
      (s : System) (i : ℕ) (external : Text) (now : DateTime) (db : Db)
      → 1 ≤ count i s.in_flight
      → mark_communication_sent i external now s.db ≡ ok db
      → Step s (record { db = db; in_flight = remove i s.in_flight })
  refuse :
      (s : System) (i : ℕ) (error : Text)
      → 1 ≤ count i s.in_flight
      → Step s
          (record { db = mark_communication_failed i error s.db; in_flight = remove i s.in_flight })
  stop :
      (s : System) (i : ℕ)
      → 1 ≤ count i s.in_flight
      → Step s (record s { in_flight = remove i s.in_flight })
  fail :
      (s : System) (o : Settings) (e : ClaimedOutboxEvent) (error : Text) (dead_id : ℕ)
      (now : DateTime)
      → Step s (record s { db = record_failure o e error dead_id now s.db })
  requeue :
      (s : System) (uuid : Codec ℕ) (sha256 : Text → Text) (render : Value → Text) (i : ℕ)
      (actor : ActorId) (source correlation key : Text) (ids : RequeueIds) (db : Db)
      (r : RequeuedDeadLetter)
      → requeue_dead_letter uuid sha256 render i actor source correlation key ids s.db ≡ ok (db, r)
      → Step s (record s { db = db })
  create :
      (s : System) (c : Communication)
      → find_communication s.db c.id ≡ none
      → Step s (record s { db = record s.db { communications = s.db.communications ++ c ∷ [] } })
  -- A transaction that writes no communication: a claim, or the mark of a published event.
  elsewhere :
      (s : System) (db : Db)
      → db.communications ≡ s.db.communications
      → Step s (record s { db = db })

pub data Reach (s : System) : System → Type 0 where
  here : Reach s s
  next : {t u : System} → Reach s t → Step t u → Reach s u

pub count-remove :
    (i j : ℕ) (xs : List ℕ)
    → 1 ≤ count i xs
    → count j (remove i xs) + (if i == j then 1 else 0) ≡ count j xs
unfolding count remove
count-remove i j [] h = absurd (omega (arith, h))
count-remove i j (x ∷ xs) h = ground (arith, count-remove i j xs)

pub find_set :
    (i j : ℕ) (f : Communication → Communication)
    → ((c : Communication) → (f c).id ≡ c.id)
    → (db : Db)
    → find_communication (set_communication f i db) j
      ≡ (if i == j then map_option f (find_communication db j) else find_communication db j)
find_set i j f keeps db = find-update communication_id i j f keeps db.communications

pub begin-sendable :
    (i : ℕ) (o : Option Communication) (db : Db) {db' : Db} {c : Communication}
    → start_sending i o db ≡ ok (db', some c)
    → (c' : Communication) × ((o ≡ some c')
        × ((is_sendable c'.status ≡ true) × (db' ≡ set_communication sending_row i db)))
begin-sendable i none db h = cc
begin-sendable i (some c) db h = (c, (refl, (ground arith, ground arith)))

pub failed_row-id : (error : Text) (c : Communication) → (failed_row error c).id ≡ c.id
failed_row-id error c = ground arith

-- A communication as it was, or as a dead letter.
abbrev pub IsKept : Option Communication → Option Communication → Text → Type 0
IsKept o o' error = (o' ≡ o) ⊎ (o' ≡ map_option (dead_communication error) o)

bury-IsKept :
    (error : Text) (m : OutboxEventModel) (cs : List Communication) (i : ℕ)
    → IsKept
        (find_row communication_id cs i)
        (find_row communication_id (bury_communication error m cs) i)
        error
unfolding bury_communication
bury-IsKept error m cs i =
    let found =
      find-update communication_id m.aggregate_id i (dead_communication error) (λ c. refl) cs in
    elim (Bool-cases (eq m.event_type (text "CommunicationSendRequested"))) [
      | inr e ↦ rw e (inl refl)
      | inl e ↦ elim (Bool-cases (m.aggregate_id == i)) [
        | inl k ↦ rw e (inr (found ∙ rw k refl))
        | inr k ↦ rw e (inl (found ∙ rw k refl))
      ]
    ]

fail_row-IsKept :
    (o : Settings) (e : ClaimedOutboxEvent) (error : Text) (dead_id : ℕ) (now : DateTime)
    (m : OutboxEventModel) (db : Db) (i : ℕ)
    → IsKept
        (find_communication db i)
        (find_communication (fail_row o e error dead_id now m db) i)
        (take 4000 error)
unfolding fail_row
fail_row-IsKept o e error dead_id now m db i =
    elim (Bool-cases (leb o.outbox_max_attempts (e.attempts + 1))) [
      | inl b ↦ rw b (bury-IsKept (take 4000 error) m db.communications i)
      | inr b ↦ rw b (inl refl)
    ]

fail_found-IsKept :
    (o : Settings) (e : ClaimedOutboxEvent) (error : Text) (dead_id : ℕ) (now : DateTime)
    (m : Option OutboxEventModel) (db : Db) (i : ℕ)
    → IsKept
        (find_communication db i)
        (find_communication (fail_found o e error dead_id now m db) i)
        (take 4000 error)
unfolding fail_found
fail_found-IsKept o e error dead_id now none db i = inl refl
fail_found-IsKept o e error dead_id now (some m) db i = elim (Bool-cases (is_some m.published_at)) [
  | inl b ↦ rw b (inl refl)
  | inr b ↦ rw b (fail_row-IsKept o e error dead_id now m db i)
]

pub record_failure-IsKept :
    (o : Settings) (e : ClaimedOutboxEvent) (error : Text) (dead_id : ℕ) (now : DateTime) (db : Db)
    (i : ℕ)
    → IsKept
        (find_communication db i)
        (find_communication (record_failure o e error dead_id now db) i)
        (take 4000 error)
unfolding record_failure
record_failure-IsKept o e error dead_id now db i =
    fail_found-IsKept o e error dead_id now (find_event db e.id) db i

pub requeue-communications :
    (uuid : Codec ℕ) (sha256 : Text → Text) (render : Value → Text) (i : ℕ) (actor : ActorId)
    (source correlation key : Text) (ids : RequeueIds) (s db : Db) {r : RequeuedDeadLetter}
    → requeue_dead_letter uuid sha256 render i actor source correlation key ids s ≡ ok (db, r)
    → db.communications ≡ s.communications
unfolding requeue_dead_letter requeue_row
requeue-communications uuid sha256 render i actor source correlation key ids s db h = ground arith

pub deliver-set :
    (i : ℕ) (external : Text) (now : DateTime) (db : Db) {db' : Db}
    → mark_communication_sent i external now db ≡ ok db'
    → db' ≡ set_communication (sent_row external now) i db
unfolding mark_communication_sent
deliver-set i external now db h = ground arith
