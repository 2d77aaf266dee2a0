-- ===== src/Outbox/Exclusive.antt =====
-- At most one call that sends a communication is under way.
use legal_workbench.Prelude.{
  ℕ, ◌+◌, ◌≤◌, ◌≡◌, refl, sym, ap, ◌∙◌, Bool, true, Option, none, some, [], ◌∷◌, ◌++◌, Text, ok,
  ◌==◌, if◌then◌else◌, contains, nat_eq, text_eq, inl, inr, arith, Bool-cases, take, ==_iff,
  find_row, find-append, map_option,
}
use legal_workbench.Review.{Communication}
use legal_workbench.Review.Enums.{sending, dead_letter, communication_status_eq}
use legal_workbench.Outbox.{record_failure}
use legal_workbench.Outbox.Model.{Db, communication_id, find_communication}
use legal_workbench.Outbox.Delivery.{
  is_sendable, sending_row, sent_row, failed_row, set_communication, mark_communication_sending,
  mark_communication_failed,
}
use legal_workbench.Outbox.Steps.{
  System, count, remove, Step, begin, deliver, refuse, stop, fail, requeue, create, elsewhere,
  Reach, here, next, count-remove, find_set, begin-sendable, failed_row-id, IsKept,
  record_failure-IsKept, requeue-communications, deliver-set,
}

-- How many calls may be under way for a communication.
abbrev allowance : Option Communication → ℕ
allowance none = 0
allowance (some c) = if contains (sending ∷ dead_letter ∷ []) c.status then 1 else 0

abbrev IsExclusive : System → ℕ → Type 0
IsExclusive s i = count i s.in_flight ≤ allowance (find_communication s.db i)

allowance-le_one : (o : Option Communication) → allowance o ≤ 1
allowance-le_one o = ground arith

allowance_kept :
    (o o' : Option Communication) (error : Text) → IsKept o o' error → allowance o ≤ allowance o'
allowance_kept o o' error (inl e) = rw e (omega arith)
allowance_kept none o' error (inr e) = omega arith
allowance_kept (some c) o' error (inr e) = rw e (ground arith)

began_allowance :
    (n : ℕ) (o : Option Communication) {c : Communication}
    → o ≡ some c
    → is_sendable c.status ≡ true
    → n ≤ allowance o
    → 1 + n ≤ allowance (map_option sending_row o)
began_allowance n o e h l = ground arith

begin-allowance :
    (i j n : ℕ) (db : Db) {db' : Db} {c : Communication}
    → mark_communication_sending i db ≡ ok (db', some c)
    → n ≤ allowance (find_communication db j)
    → (if i == j then 1 else 0) + n ≤ allowance (find_communication db' j)
unfolding mark_communication_sending
begin-allowance i j n db h x =
    let (c', (o, (sendable, e))) = begin-sendable i (find_communication db i) db h in
    let found = find_set i j sending_row (λ d. refl) db in
    elim (Bool-cases (i == j)) [
      | inr k ↦ rw (e, found, k) (omega (arith, x))
      | inl k ↦
          let same = sym (ap (find_communication db) ((==_iff i j).0 k)) ∙ o in
          rw (e, found, k) (began_allowance n (find_communication db j) same sendable x)
    ]

ended_allowance :
    (n : ℕ) (b : Bool) (f : Communication → Communication) (o : Option Communication)
    → n + (if b then 1 else 0) ≤ allowance o
    → n ≤ allowance (if b then map_option f o else o)
ended_allowance n b f o l = ground arith

set_allowance :
    (i j n : ℕ) (f : Communication → Communication) (db : Db)
    → ((c : Communication) → (f c).id ≡ c.id)
    → n + (if i == j then 1 else 0) ≤ allowance (find_communication db j)
    → n ≤ allowance (find_communication (set_communication f i db) j)
set_allowance i j n f db keeps x =
    rw (find_set i j f keeps db) (ended_allowance n (i == j) f (find_communication db j) x)

create-allowance :
    (db : Db) (c : Communication) (i : ℕ)
    → allowance (find_communication db i)
      ≤ allowance (find_row communication_id (db.communications ++ c ∷ []) i)
create-allowance db c i =
    rw (find-append communication_id db.communications (c ∷ []) i) (ground arith)

-- A step keeps the number of calls within the allowance of every communication.
step-IsExclusive :
    {s t : System} → Step s t → ((i : ℕ) → IsExclusive s i) → (j : ℕ) → IsExclusive t j
unfolding count mark_communication_failed
step-IsExclusive (begin s i c db h) x j = begin-allowance i j (count j s.in_flight) s.db h (x j)
step-IsExclusive (deliver s i external now db m h) x j = rw (deliver-set i external now s.db h) (
    set_allowance i j (count j (remove i s.in_flight)) (sent_row external now) s.db (λ c. refl)
      (omega (arith, count-remove i j s.in_flight m, x j)))
step-IsExclusive (refuse s i error m) x j =
    set_allowance i j (count j (remove i s.in_flight)) (failed_row error) s.db (failed_row-id error)
      (omega (arith, count-remove i j s.in_flight m, x j))
step-IsExclusive (stop s i m) x j = omega (arith, count-remove i j s.in_flight m, x j)
step-IsExclusive (fail s o e error dead_id now) x j =
    let kept = record_failure-IsKept o e error dead_id now s.db j in
    omega (
      arith,
      x j,
      allowance_kept (find_communication s.db j)
          (find_communication (record_failure o e error dead_id now s.db) j) (take 4000 error) kept,
    )
step-IsExclusive (requeue s uuid sha256 render i actor source correlation key ids db r h) x j =
    rw (requeue-communications uuid sha256 render i actor source correlation key ids s.db db h)
      (x j)
step-IsExclusive (create s c h) x j = omega (arith, x j, create-allowance s.db c j)
step-IsExclusive (elsewhere s db h) x j = rw h (x j)

reach-IsExclusive :
    {s t : System} → Reach s t → ((i : ℕ) → IsExclusive s i) → (j : ℕ) → IsExclusive t j
reach-IsExclusive here x j = x j
reach-IsExclusive (next r st) x j = step-IsExclusive st (reach-IsExclusive r x) j

idle-IsExclusive : (db : Db) (i : ℕ) → IsExclusive (record { db = db; in_flight = [] }) i
unfolding count
idle-IsExclusive db i = omega arith

-- However the transactions of any workers interleave, and whichever workers stop, at most one call
-- that sends a communication is under way.
pub sends_exclusive :
    (db : Db) (t : System) (i : ℕ)
    → Reach (record { db = db; in_flight = [] }) t
    → count i t.in_flight ≤ 1
sends_exclusive db t i r = omega (
  arith,
  reach-IsExclusive r (idle-IsExclusive db) i,
  allowance-le_one (find_communication t.db i),
)
