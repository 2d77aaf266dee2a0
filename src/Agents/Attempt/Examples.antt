-- ===== src/Agents/Attempt/Examples.antt =====
-- An attempt at work: the theorems about attempts at concrete inputs.
use legal_workbench.Prelude.{
  ◌≡◌, ◌<◌, refl, none, some, List, [], ◌∷◌, text, utc_now, ok, strip, lstrip, rstrip, is_space,
}
use legal_workbench.Prelude.Int.{pos}
use legal_workbench.Agents.Enums.{running, expired, completed}
use legal_workbench.Agents.Attempt.{
  AgentAttemptLease, AgentRunAttempt, start, lease, complete, expire,
}
use legal_workbench.Agents.Attempt.Fencing.{
  IsSound, Call, completing, beating, expiring, perform, run, attempt-IsSound, perform-IsEntitled,
  expired_is_final,
}

abbrev token : AgentAttemptLease
token = record { run_id = 1; attempt_number = pos 1; lease_token = 77 }

abbrev fresh : AgentRunAttempt
fresh = record {
  id = 5;
  run_id = 1;
  attempt_number = pos 1;
  lease_token = 77;
  worker_id = text "w";
  status = running;
  lease_expires_at = utc_now 10;
  started_at = utc_now 0;
  heartbeat_at = utc_now 0;
  finished_at = none;
  failure_code = none;
  failure_message = none;
}

starts : start 5 token (text "w") (utc_now 10) (some (utc_now 0)) 0 ≡ ok fresh
unfolding start strip lstrip rstrip is_space
starts = refl

abbrev calls : List Call
calls = beating token (utc_now 5) (utc_now 15) 5 ∷ expiring none 20 ∷ completing token none 21 ∷ []

abbrev recovered : AgentRunAttempt
recovered = record fresh {
  status = expired;
  finished_at = some (utc_now 20);
  lease_expires_at = utc_now 20;
  failure_code = some (text "AGENT_LEASE_EXPIRED");
  failure_message = some (text "Agent worker heartbeat lease expired.");
}

recovers : expire fresh none 20 ≡ ok recovered
unfolding expire
recovers = refl

attempt-IsSound_example : IsSound (run fresh calls)
attempt-IsSound_example =
    attempt-IsSound 5 token (text "w") (utc_now 10) (some (utc_now 0)) 0 calls starts

abbrev done : AgentRunAttempt
done = record fresh {
  status = completed;
  finished_at = some (utc_now 7);
  lease_expires_at = utc_now 7;
}

completes : perform fresh (completing token none 7) ≡ ok done
unfolding perform complete
completes = refl

perform-IsEntitled_example : (fresh.status ≡ running) × ((token ≡ lease fresh) × (7 < 10))
perform-IsEntitled_example = perform-IsEntitled fresh (completing token none 7) completes

expired_is_final_example : (run recovered calls ≡ recovered) × (recovered.status ≡ expired)
expired_is_final_example = expired_is_final fresh none 20 calls recovers
