-- ===== src/Feishu/Checkpoint/Lease.antt =====
-- The calls on a checkpoint, and what holds of it between them.
use legal_workbench.Prelude.{
  ℕ, ◌≡◌, ◌≢◌, Bool, true, not, ◌||◌, Option, none, some, List, [], ◌∷◌, Text, DateTime, Result, ok,
  err, ◌>>=◌, type_error, ◌==◌, nat_eq, text_eq, after, Result-cases, inl, inr, arith, is_some,
  is_none,
}
use legal_workbench.Feishu.Checkpoint.{
  FeishuSyncCheckpoint, new_checkpoint, claim, renew, succeed, fail,
}

-- What the holder of a lease does.
pub data Work : Type 0 where
  renewing : Option Text → DateTime → Work
  succeeding : DateTime → Work
  failing : Text → Work

unfoldable pub write :
    FeishuSyncCheckpoint
    → (owner : Text) → (fence : ℕ) → (now : DateTime) → Work
    → Result FeishuSyncCheckpoint
write c owner fence now (renewing page until) = renew c owner fence page until now
write c owner fence now (succeeding watermark) = succeed c owner fence watermark now
write c owner fence now (failing code) = fail c owner fence code now

pub data Call : Type 0 where
  claiming : (owner : Text) → (until now : DateTime) → Call
  working : (owner : Text) → (fence : ℕ) → (now : DateTime) → Work → Call

abbrev pub claimed : Result (FeishuSyncCheckpoint × ℕ) → Result FeishuSyncCheckpoint
claimed r = r >>= λ p. ok p.0

unfoldable pub perform : FeishuSyncCheckpoint → Call → Result FeishuSyncCheckpoint
perform c (claiming owner until now) = claimed (claim c owner until now)
perform c (working owner fence now w) = write c owner fence now w

unfoldable pub run : FeishuSyncCheckpoint → List Call → FeishuSyncCheckpoint
run c [] = c
run c (k ∷ ks) = run (after c (perform c k)) ks

abbrev pub is_aware : Option DateTime → Bool
is_aware none = true
is_aware (some d) = d.aware

-- What holds of a checkpoint between two calls.
pub record IsSound (c : FeishuSyncCheckpoint) : Type 0 where
  pub leased : is_some c.lease_owner ≡ is_some c.lease_expires_at
  pub expiry_aware : is_aware c.lease_expires_at ≡ true
  pub watermark_aware : is_aware c.watermark ≡ true
  pub start_aware : is_aware c.last_started_at ≡ true
  pub success_aware : is_aware c.last_succeeded_at ≡ true
  pub update_aware : c.updated_at.aware ≡ true
  pub explained : is_some c.last_error_code ≡ not (c.consecutive_failures == 0)
  pub paging : (is_none c.page_token || is_some c.lease_owner) ≡ true

new-IsSound :
    (id authorization scope clock : ℕ) → IsSound (new_checkpoint id authorization scope clock)
new-IsSound id authorization scope clock = ground arith

write-IsSound :
    (c : FeishuSyncCheckpoint) (owner : Text) (fence : ℕ) (now : DateTime) (w : Work)
    {c' : FeishuSyncCheckpoint}
    → IsSound c
    → write c owner fence now w ≡ ok c'
    → IsSound c'
unfolding write renew succeed fail
write-IsSound c owner fence now (renewing page until) s h = ground arith
write-IsSound c owner fence now (succeeding watermark) s h = ground arith
write-IsSound c owner fence now (failing code) s h = ground arith

perform-IsSound :
    (c : FeishuSyncCheckpoint) (k : Call) {c' : FeishuSyncCheckpoint}
    → IsSound c
    → perform c k ≡ ok c'
    → IsSound c'
unfolding perform claim
perform-IsSound c (claiming owner until now) s h = ground arith
perform-IsSound c (working owner fence now w) s h = write-IsSound c owner fence now w s h

run-IsSound : (c : FeishuSyncCheckpoint) (ks : List Call) → IsSound c → IsSound (run c ks)
unfolding run
run-IsSound c [] s = s
run-IsSound c (k ∷ ks) s = elim (Result-cases (perform c k)) [
  | inl (c', e) ↦ rw e (run-IsSound c' ks (perform-IsSound c k s e))
  | inr (x, e) ↦ rw e (run-IsSound c ks s)
]

-- A new checkpoint has, after any calls of any workers, an owner exactly if its lease has an end, an
-- error code exactly if its last synchronisations failed, and a page to continue at only while it is
-- leased. All its times are timezone-aware: the end of the lease, the watermark, and the times of the
-- last start, success and update.
pub checkpoint-IsSound :
    (id authorization scope clock : ℕ) (ks : List Call)
    → IsSound (run (new_checkpoint id authorization scope clock) ks)
checkpoint-IsSound id authorization scope clock ks =
    run-IsSound _ ks (new-IsSound id authorization scope clock)

write-ne-type_error :
    (c : FeishuSyncCheckpoint) (owner : Text) (fence : ℕ) (now : DateTime) (w : Work)
    → IsSound c
    → write c owner fence now w ≢ err type_error
unfolding write renew succeed fail
write-ne-type_error c owner fence now (renewing page until) s = ground arith
write-ne-type_error c owner fence now (succeeding watermark) s = ground arith
write-ne-type_error c owner fence now (failing code) s = ground arith

-- No call on a checkpoint compares a timezone-aware time with a naive one.
pub checkpoint-ne-type_error :
    (c : FeishuSyncCheckpoint) (k : Call) → IsSound c → perform c k ≢ err type_error
unfolding perform claim
checkpoint-ne-type_error c (claiming owner until now) s = ground arith
checkpoint-ne-type_error c (working owner fence now w) s = write-ne-type_error c owner fence now w s
