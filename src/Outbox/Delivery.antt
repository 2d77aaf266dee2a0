-- ===== src/Outbox/Delivery.antt =====
-- infrastructure/outbox.py: how a communication is sent. The answer of the Feishu client is an
-- argument. The version that the mapper counts up at each write is left out.
use legal_workbench.Prelude.{
  ℕ, ◌+◌, Bool, not, ◌&&◌, Option, none, some, [], ◌∷◌, Text, DateTime, Result, ok, err, ◌>>◌,
  raise_if, lookup_error, runtime_error, external_error, eq, if◌then◌else◌, contains, nat_eq,
  text_eq, is_none, take, update_row,
}
use legal_workbench.Review.{Communication}
use legal_workbench.Review.Enums.{
  CommunicationStatus, queued, sending, sent, failed, unknown, communication_status_eq,
}
use legal_workbench.Outbox.Model.{Db, communication_id, find_communication}

-- The statuses from which a communication is sent.
abbrev pub is_sendable : CommunicationStatus → Bool
is_sendable s = contains (queued ∷ failed ∷ unknown ∷ []) s

abbrev pub sending_row : Communication → Communication
sending_row c = record c { status = sending; attempts = c.attempts + 1; last_error = none }

abbrev pub set_communication : (Communication → Communication) → ℕ → Db → Db
set_communication f i db = record db {
  communications = update_row communication_id i f db.communications;
}

abbrev pub start_sending : ℕ → Option Communication → Db → Result (Db × Option Communication)
start_sending i none db = err lookup_error
start_sending i (some c) db = do
  let is_sent = eq c.status sent
  raise_if (not is_sent && not (is_sendable c.status)) runtime_error
  ok (if is_sent then (db, none) else (set_communication sending_row i db, some (sending_row c)))

-- The communication to send, or none if it was sent before.
unfoldable pub mark_communication_sending : ℕ → Db → Result (Db × Option Communication)
mark_communication_sending i db = start_sending i (find_communication db i) db

abbrev pub sent_row : (external_message_id : Text) → DateTime → Communication → Communication
sent_row external now c = record c {
  status = sent;
  external_message_id = some external;
  sent_at = some now;
  last_error = none;
}

unfoldable pub mark_communication_sent :
    ℕ → (external_message_id : Text) → (now : DateTime) → Db → Result Db
mark_communication_sent i external now db = do
  raise_if (is_none (find_communication db i)) lookup_error
  ok (set_communication (sent_row external now) i db)

-- `if model.status != SENT`
abbrev pub failed_row : Text → Communication → Communication
failed_row error c =
    if eq c.status sent
    then c
    else record c { status = failed; last_error = some (take 4000 error) }

unfoldable pub mark_communication_failed : ℕ → (error : Text) → Db → Db
mark_communication_failed i error db = set_communication (failed_row error) i db

-- What the Feishu client answers: the id of the message, or the text of an exception.
pub data Reply : Type 0 where
  delivered : (external_message_id : Text) → Reply
  refused : (error : Text) → Reply

abbrev pub record_reply : ℕ → Reply → DateTime → Db → Db × Result (Unit {0})
record_reply i (delivered external) now db = elim (mark_communication_sent i external now db) [
  | ok db' ↦ (db', ok tt)
  | err e ↦ (db, err e)
]
record_reply i (refused error) now db = (mark_communication_failed i error db, err external_error)

abbrev pub send_started :
    ℕ
    → (Communication → Reply)
    → DateTime
    → Result (Db × Option Communication)
    → Db
    → Db × Result (Unit {0})
send_started i client now (err e) db = (db, err e)
send_started i client now (ok (db', none)) db = (db', ok tt)
send_started i client now (ok (db', some c)) db = record_reply i (client c) now db'

-- The tables after the call, and how it ends.
unfoldable pub send_communication :
    ℕ → (client : Communication → Reply) → (now : DateTime) → Db → Db × Result (Unit {0})
unfolding mark_communication_sending mark_communication_sent mark_communication_failed
send_communication i client now db = send_started i client now (mark_communication_sending i db) db
