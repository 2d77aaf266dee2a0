-- ===== src/Outbox/Settled.antt =====
-- A communication that was delivered or has become a dead letter is not sent again.
use legal_workbench.Prelude.{
  ℕ, ◌≤◌, ◌≡◌, ◌≢◌, refl, sym, ap, ◌∙◌, Bool, true, false, Option, none, some, List, [], ◌∷◌, ◌++◌,
  Text, ok, ◌==◌, contains, nat_eq, text_eq, inl, inr, arith, Bool-cases, take, ==_iff, find_row,
  find-append,
}
use legal_workbench.Review.{Communication}
use legal_workbench.Review.Enums.{sent, dead_letter, communication_status_eq}
use legal_workbench.Outbox.{record_failure}
use legal_workbench.Outbox.Model.{Db, communication_id, find_communication}
use legal_workbench.Outbox.Delivery.{
  is_sendable, sending_row, sent_row, failed_row, set_communication, mark_communication_sending,
  mark_communication_failed,
}
use legal_workbench.Outbox.Steps.{
  System, count, remove, Step, begin, deliver, refuse, stop, fail, requeue, create, elsewhere,
  Reach, here, next, count-remove, find_set, begin-sendable, failed_row-id, IsKept,
  record_failure-IsKept, requeue-communications, deliver-set,
}

abbrev pub is_settled : Option Communication → Bool
is_settled none = false
is_settled (some c) = contains (sent ∷ dead_letter ∷ []) c.status

-- The communication is delivered or dead, and no call is under way for it.
abbrev IsAtRest : System → ℕ → Type 0
IsAtRest s i = (is_settled (find_communication s.db i) ≡ true) × (count i s.in_flight ≡ 0)

set_other :
    (k i : ℕ) (f : Communication → Communication) (db : Db)
    → ((c : Communication) → (f c).id ≡ c.id)
    → (k == i) ≡ false
    → find_communication (set_communication f k db) i ≡ find_communication db i
set_other k i f db keeps e = find_set k i f keeps db ∙ rw e refl

-- A call under way is for another communication.
other_in_flight : (k i : ℕ) (xs : List ℕ) → 1 ≤ count k xs → count i xs ≡ 0 → (k == i) ≡ false
other_in_flight k i xs h z = elim (Bool-cases (k == i)) [
  | inl e ↦ absurd (omega (arith, h, z, ap (λ j. count j xs) ((==_iff k i).0 e)))
  | inr e ↦ e
]

remove_other : (k i : ℕ) (xs : List ℕ) → 1 ≤ count k xs → count i xs ≡ 0 → count i (remove k xs) ≡ 0
remove_other k i xs h z = omega (arith, count-remove k i xs h, z)

settled_kept :
    (o o' : Option Communication) (error : Text)
    → IsKept o o' error
    → is_settled o ≡ true
    → is_settled o' ≡ true
settled_kept o o' error (inl e) h = rw e h
settled_kept none o' error (inr e) h = cc
settled_kept (some c) o' error (inr e) h = rw e refl

settled-ne-sendable :
    (o : Option Communication) {c : Communication}
    → is_settled o ≡ true
    → o ≡ some c
    → is_sendable c.status ≡ true
    → ⊥
settled-ne-sendable o h e k = ground arith

begin_other :
    (s : System) (k i : ℕ) (c : Communication) (db : Db)
    → mark_communication_sending k s.db ≡ ok (db, some c)
    → IsAtRest s i
    → (db ≡ set_communication sending_row k s.db) × ((k == i) ≡ false)
unfolding mark_communication_sending
begin_other s k i c db h (settled, z) =
    let (c', (o, (sendable, e))) = begin-sendable k (find_communication s.db k) s.db h in
    (
      e,
      elim (Bool-cases (k == i)) [
        | inr n ↦ n
        | inl y ↦ absurd (
            settled-ne-sendable (find_communication s.db i) settled
              (sym (ap (find_communication s.db) ((==_iff k i).0 y)) ∙ o) sendable)
      ],
    )

create_settled :
    (db : Db) (c : Communication) (i : ℕ)
    → is_settled (find_communication db i) ≡ true
    → is_settled (find_row communication_id (db.communications ++ c ∷ []) i) ≡ true
create_settled db c i h =
    rw (find-append communication_id db.communications (c ∷ []) i) (ground arith)

step-IsAtRest : {s t : System} → Step s t → (i : ℕ) → IsAtRest s i → IsAtRest t i
unfolding count mark_communication_failed
step-IsAtRest (begin s k c db h) i (settled, z) =
    let (e, n) = begin_other s k i c db h (settled, z) in
    (rw (e, set_other k i sending_row s.db (λ d. refl) n) settled, rw n (omega (arith, z)))
step-IsAtRest (deliver s k external now db m h) i (settled, z) =
    let n = other_in_flight k i s.in_flight m z in
    (
      rw
          (
            deliver-set k external now s.db h,
            set_other k i (sent_row external now) s.db (λ c. refl) n,
          )
          settled,
      remove_other k i s.in_flight m z,
    )
step-IsAtRest (refuse s k error m) i (settled, z) =
    let n = other_in_flight k i s.in_flight m z in
    (
      rw (set_other k i (failed_row error) s.db (failed_row-id error) n) settled,
      remove_other k i s.in_flight m z,
    )
step-IsAtRest (stop s k m) i (settled, z) = (settled, remove_other k i s.in_flight m z)
step-IsAtRest (fail s o e error dead_id now) i (settled, z) = (
  settled_kept (find_communication s.db i)
      (find_communication (record_failure o e error dead_id now s.db) i) (take 4000 error)
      (record_failure-IsKept o e error dead_id now s.db i) settled,
  z,
)
step-IsAtRest (requeue s uuid sha256 render k actor source correlation key ids db r h) i
      (settled, z) =
    (
      rw (requeue-communications uuid sha256 render k actor source correlation key ids s.db db h)
          settled,
      z,
    )
step-IsAtRest (create s c h) i (settled, z) = (create_settled s.db c i settled, z)
step-IsAtRest (elsewhere s db h) i (settled, z) = (rw h settled, z)

reach-IsAtRest : {s t : System} → Reach s t → (i : ℕ) → IsAtRest s i → IsAtRest t i
reach-IsAtRest here i x = x
reach-IsAtRest (next r st) i x = step-IsAtRest st i (reach-IsAtRest r i x)

-- A communication that was delivered or has become a dead letter, and for which no call is under
-- way, is never handed to the client again: whatever steps any workers take, requeues of its dead
-- letter included.
pub settled_never_sent :
    (s t : System) (i : ℕ) (db : Db) (c : Communication)
    → Reach s t
    → is_settled (find_communication s.db i) ≡ true
    → count i s.in_flight ≡ 0
    → mark_communication_sending i t.db ≢ ok (db, some c)
unfolding mark_communication_sending
settled_never_sent s t i db c r settled z h =
    let (c', (o, (sendable, e))) = begin-sendable i (find_communication t.db i) t.db h in
    settled-ne-sendable (find_communication t.db i) (reach-IsAtRest r i (settled, z)).0 o sendable
