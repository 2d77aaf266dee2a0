-- ===== src/Feishu/Checkpoint/Examples.antt =====
-- A chat read by two workers: the theorems about checkpoints at concrete inputs.
use legal_workbench.Prelude.{
  inl, inr, ◌≡◌, refl, false, none, some, List, [], ◌∷◌, text, utc_now, ok, nat_eq, text_eq,
  succeeds, arith,
}
use legal_workbench.Feishu.Checkpoint.{
  FeishuSyncCheckpoint, new_checkpoint, claim, succeed, require_lease,
}
use legal_workbench.Feishu.Checkpoint.Lease.{
  renewing, succeeding, failing, write, Call, claiming, working, run, IsSound, checkpoint-IsSound,
}
use legal_workbench.Feishu.Checkpoint.Fencing.{superseded_refused, holder_undisturbed}

abbrev calls : List Call
calls =
    claiming (text "a") (utc_now 10) (utc_now 1)
    ∷ working (text "a") 1 (utc_now 4) (renewing (some (text "p2")) (utc_now 14))
    ∷ claiming (text "b") (utc_now 30) (utc_now 20)
    ∷ working (text "a") 1 (utc_now 21) (succeeding (utc_now 20))
    ∷ working (text "b") 2 (utc_now 22) (failing (text "timeout"))
    ∷ []

checkpoint-IsSound_example : IsSound (run (new_checkpoint 1 2 3 0) calls)
checkpoint-IsSound_example = checkpoint-IsSound 1 2 3 0 calls

abbrev held : FeishuSyncCheckpoint
held = record (new_checkpoint 1 2 3 0) {
  lease_owner = some (text "a");
  lease_expires_at = some (utc_now 10);
  lease_fence = 1;
  last_started_at = some (utc_now 1);
  updated_at = utc_now 1;
}

claims : claim (new_checkpoint 1 2 3 0) (text "a") (utc_now 10) (utc_now 1) ≡ ok (held, 1)
unfolding claim
claims = refl

abbrev synchronised : FeishuSyncCheckpoint
synchronised = record held {
  watermark = some (utc_now 4);
  last_succeeded_at = some (utc_now 5);
  lease_owner = none;
  lease_expires_at = none;
  updated_at = utc_now 5;
}

writes : write held (text "a") 1 (utc_now 5) (succeeding (utc_now 4)) ≡ ok synchronised
unfolding write succeed require_lease
writes = refl

abbrev taken : FeishuSyncCheckpoint
taken = record held {
  lease_owner = some (text "b");
  lease_expires_at = some (utc_now 30);
  lease_fence = 2;
  last_started_at = some (utc_now 20);
  updated_at = utc_now 20;
}

takes : claim held (text "b") (utc_now 30) (utc_now 20) ≡ ok (taken, 2)
unfolding claim
takes = refl

superseded_refused_example :
    succeeds (write (run taken calls) (text "a") 1 (utc_now 21) (succeeding (utc_now 20))) ≡ false
superseded_refused_example =
    superseded_refused held (text "b") (utc_now 30) (utc_now 20) calls (text "a") 1 (utc_now 21)
      (succeeding (utc_now 20)) takes (omega arith)

abbrev foreign : List Call
foreign =
    claiming (text "a") (utc_now 40) (utc_now 25)
    ∷ working (text "a") 1 (utc_now 26) (succeeding (utc_now 20))
    ∷ working (text "a") 2 (utc_now 27) (failing (text "e"))
    ∷ []

holder_undisturbed_example : run taken foreign ≡ taken
holder_undisturbed_example =
    holder_undisturbed held (text "b") (utc_now 30) (utc_now 20) foreign takes
      (omega arith, (inr (λ e. omega (arith, e)), (inl (λ e. ground arith), tt)))
