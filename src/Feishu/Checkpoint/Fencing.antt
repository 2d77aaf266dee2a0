-- ===== src/Feishu/Checkpoint/Fencing.antt =====
-- A lease keeps every other worker out.
use legal_workbench.Prelude.{
  ℕ, ◌+◌, ◌≤◌, ◌<◌, ◌≡◌, ◌≢◌, refl, sym, ◌∙◌, true, false, Option, none, some, List, [], ◌∷◌, Text,
  is_text-eq-some, DateTime, Result, ok, err, nat_eq, text_eq, after, succeeds, Result-cases, inl,
  inr, arith, All, ◌⊎◌,
}
use legal_workbench.Feishu.Checkpoint.{
  FeishuSyncCheckpoint, claim, require_lease, renew, succeed, fail,
}
use legal_workbench.Feishu.Checkpoint.Lease.{
  Work, renewing, succeeding, failing, write, Call, claiming, working, claimed, perform, run,
}

-- An optional time is a time after `now`.
abbrev pub EndsAfter : Option DateTime → DateTime → Type 0
EndsAfter none now = ⊥
EndsAfter (some until) now = now.ticks < until.ticks

require_lease-IsHolder :
    (c : FeishuSyncCheckpoint) (owner : Text) (fence : ℕ) (now : DateTime)
    → require_lease c owner fence now ≡ ok tt
    → (c.lease_owner ≡ some owner) × ((c.lease_fence ≡ fence) × EndsAfter c.lease_expires_at now)
unfolding require_lease
require_lease-IsHolder c owner fence now h = ground (arith, is_text-eq-some c.lease_owner owner)

write-require_lease :
    (c : FeishuSyncCheckpoint) (owner : Text) (fence : ℕ) (now : DateTime) (w : Work)
    {c' : FeishuSyncCheckpoint}
    → write c owner fence now w ≡ ok c'
    → require_lease c owner fence now ≡ ok tt
unfolding write renew succeed fail
write-require_lease c owner fence now (renewing page until) h = ground arith
write-require_lease c owner fence now (succeeding watermark) h = ground arith
write-require_lease c owner fence now (failing code) h = ground arith

-- Only the owner of the current lease, with the number of that lease and before its end, renews it
-- or records a success or a failure.
pub write-IsHolder :
    (c : FeishuSyncCheckpoint) (owner : Text) (fence : ℕ) (now : DateTime) (w : Work)
    {c' : FeishuSyncCheckpoint}
    → write c owner fence now w ≡ ok c'
    → (c.lease_owner ≡ some owner) × ((c.lease_fence ≡ fence) × EndsAfter c.lease_expires_at now)
write-IsHolder c owner fence now w h =
    require_lease-IsHolder c owner fence now (write-require_lease c owner fence now w h)

write-fence :
    (c : FeishuSyncCheckpoint) (owner : Text) (fence : ℕ) (now : DateTime) (w : Work)
    {c' : FeishuSyncCheckpoint}
    → write c owner fence now w ≡ ok c'
    → c'.lease_fence ≡ c.lease_fence
unfolding write renew succeed fail
write-fence c owner fence now (renewing page until) h = ground arith
write-fence c owner fence now (succeeding watermark) h = ground arith
write-fence c owner fence now (failing code) h = ground arith

perform-fence :
    (c : FeishuSyncCheckpoint) (k : Call) {c' : FeishuSyncCheckpoint}
    → perform c k ≡ ok c'
    → c.lease_fence ≤ c'.lease_fence
unfolding perform claim
perform-fence c (claiming owner until now) h = ground arith
perform-fence c (working owner fence now w) h = omega (arith, write-fence c owner fence now w h)

after-fence :
    (c : FeishuSyncCheckpoint) (k : Call) → c.lease_fence ≤ (after c (perform c k)).lease_fence
after-fence c k = elim (Result-cases (perform c k)) [
  | inl (c', e) ↦ rw e (perform-fence c k e)
  | inr (x, e) ↦ rw e (omega arith)
]

run-fence : (c : FeishuSyncCheckpoint) (ks : List Call) → c.lease_fence ≤ (run c ks).lease_fence
unfolding run
run-fence c [] = omega arith
run-fence c (k ∷ ks) = omega (arith, after-fence c k, run-fence (after c (perform c k)) ks)

write_old_fence :
    (c : FeishuSyncCheckpoint) (owner : Text) (fence : ℕ) (now : DateTime) (w : Work)
    → fence < c.lease_fence
    → succeeds (write c owner fence now w) ≡ false
write_old_fence c owner fence now w l = elim (Result-cases (write c owner fence now w)) [
  | inl (c', e) ↦ absurd (omega (arith, (write-IsHolder c owner fence now w e).1.0))
  | inr (x, e) ↦ rw e refl
]

claim-fence :
    (c : FeishuSyncCheckpoint) (owner : Text) (until now : DateTime) {c' : FeishuSyncCheckpoint}
    {g : ℕ}
    → claim c owner until now ≡ ok (c', g)
    → (c'.lease_fence ≡ g) × (g ≡ c.lease_fence + 1)
unfolding claim
claim-fence c owner until now h = ground arith

-- Once a checkpoint has been claimed again, every write under an earlier number is refused for
-- good: whatever calls come between, by whatever worker and at whatever time.
pub superseded_refused :
    (c : FeishuSyncCheckpoint) (owner : Text) (until now : DateTime) (ks : List Call)
    (worker : Text) (fence : ℕ) (at : DateTime) (w : Work) {c' : FeishuSyncCheckpoint} {g : ℕ}
    → claim c owner until now ≡ ok (c', g)
    → fence < g
    → succeeds (write (run c' ks) worker fence at w) ≡ false
superseded_refused c owner until now ks worker fence at w {c'} {g} h l =
    write_old_fence (run c' ks) worker fence at w
      (omega (arith, (claim-fence c owner until now h).0, run-fence c' ks))

-- A call that is not by the holder of a lease that ends at `until`: a claim before that end, or work
-- for another owner or under another number.
abbrev pub IsForeign : (holder : Text) → DateTime → ℕ → Call → Type 0
IsForeign holder until g (claiming owner end now) = now.ticks < until.ticks
IsForeign holder until g (working owner fence now w) = (owner ≢ holder) ⊎ (fence ≢ g)

-- What a successful claim leaves.
abbrev IsHeld : FeishuSyncCheckpoint → (holder : Text) → DateTime → ℕ → Type 0
IsHeld c holder until g =
    (c.lease_owner ≡ some holder)
    × ((c.lease_expires_at ≡ some until) × ((c.lease_fence ≡ g) × (until.aware ≡ true)))

claim-IsHeld :
    (c : FeishuSyncCheckpoint) (owner : Text) (until now : DateTime) {c' : FeishuSyncCheckpoint}
    {g : ℕ}
    → claim c owner until now ≡ ok (c', g)
    → IsHeld c' owner until g
unfolding claim
claim-IsHeld c owner until now h = ground arith

claim_held :
    (c : FeishuSyncCheckpoint) (holder owner : Text) (end now until : DateTime) (g : ℕ)
    → IsHeld c holder until g
    → now.ticks < until.ticks
    → succeeds (claim c owner end now) ≡ false
unfolding claim
claim_held c holder owner end now until g s l = ground arith

some-injective : {t u : Text} → some t ≡ some u → t ≡ u
some-injective h = cc

write_foreign :
    (c : FeishuSyncCheckpoint) (holder owner : Text) (fence g : ℕ) (now until : DateTime) (w : Work)
    → IsHeld c holder until g
    → (owner ≢ holder) ⊎ (fence ≢ g)
    → succeeds (write c owner fence now w) ≡ false
write_foreign c holder owner fence g now until w (owned, (_, (numbered, _))) f =
    elim (Result-cases (write c owner fence now w)) [
      | inr (x, e) ↦ rw e refl
      | inl (c', e) ↦
          let (by, (under, _)) = write-IsHolder c owner fence now w e in
          elim f [
            | inl other ↦ absurd (other (some-injective (sym by ∙ owned)))
            | inr number ↦ absurd (number (sym under ∙ numbered))
          ]
    ]

after_refused :
    (c : FeishuSyncCheckpoint) (r : Result FeishuSyncCheckpoint)
    → succeeds r ≡ false
    → after c r ≡ c
after_refused c (ok a) h = cc
after_refused c (err e) h = refl

succeeds-claimed : (r : Result (FeishuSyncCheckpoint × ℕ)) → succeeds (claimed r) ≡ succeeds r
succeeds-claimed (ok p) = refl
succeeds-claimed (err e) = refl

perform_foreign :
    (c : FeishuSyncCheckpoint) (holder : Text) (until : DateTime) (g : ℕ) (k : Call)
    → IsHeld c holder until g
    → IsForeign holder until g k
    → succeeds (perform c k) ≡ false
unfolding perform
perform_foreign c holder until g (claiming owner end now) s f =
    succeeds-claimed (claim c owner end now) ∙ claim_held c holder owner end now until g s f
perform_foreign c holder until g (working owner fence now w) s f =
    write_foreign c holder owner fence g now until w s f

run_foreign :
    (c : FeishuSyncCheckpoint) (holder : Text) (until : DateTime) (g : ℕ) (ks : List Call)
    → IsHeld c holder until g
    → All (IsForeign holder until g) ks
    → run c ks ≡ c
unfolding run
run_foreign c holder until g [] s f = refl
run_foreign c holder until g (k ∷ ks) s (f, fs) =
    rw (after_refused c (perform c k) (perform_foreign c holder until g k s f))
      (run_foreign c holder until g ks s fs)

-- After a claim, no claims before the end of the lease, by whatever worker, and no work for another
-- owner or under another number change the checkpoint.
pub holder_undisturbed :
    (c : FeishuSyncCheckpoint) (owner : Text) (until now : DateTime) (ks : List Call)
    {c' : FeishuSyncCheckpoint} {g : ℕ}
    → claim c owner until now ≡ ok (c', g)
    → All (IsForeign owner until g) ks
    → run c' ks ≡ c'
holder_undisturbed c owner until now ks {c'} {g} h fs =
    run_foreign c' owner until g ks (claim-IsHeld c owner until now h) fs
