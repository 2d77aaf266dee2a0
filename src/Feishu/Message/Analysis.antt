-- ===== src/Feishu/Message/Analysis.antt =====
-- How a message goes through analysis.
use legal_workbench.Prelude.{
  ℕ, ◌+◌, ◌*◌, ◌≤◌, ◌≡◌, ◌≢◌, refl, Bool, true, false, not, ◌&&◌, ◌||◌, Option, none, some, List,
  [], ◌∷◌, Text, is_falsy, Result, ok, err, key_error, ltb, contains, nat_eq, text_eq, after,
  Result-cases, inl, inr, arith,
}
use legal_workbench.Feishu.Enums.{
  FeishuMessageStatus, received, queued_for_analysis, context_prepared, agent_queued, analysing,
  candidate_created, ignored, analysis_failed, dead_letter, unsupported, message_status_eq,
}
use legal_workbench.Feishu.Message.{FeishuMessage, transitions, transition_to}

pub data Call : Type 0 where
  moving : FeishuMessageStatus → (failure_code failure_message : Option Text) → Call

unfoldable pub perform : FeishuMessage → Call → Result FeishuMessage
perform m (moving target code message) = transition_to m target code message

unfoldable pub run : FeishuMessage → List Call → FeishuMessage
run m [] = m
run m (c ∷ cs) = run (after m (perform m c)) cs

-- How far a message in a status is from its next analysis, of which each takes five steps.
unfoldable pub progress : FeishuMessageStatus → ℕ
progress received = 1
progress queued_for_analysis = 2
progress context_prepared = 3
progress agent_queued = 4
progress analysing = 0
progress _ = 1

-- What holds of a message between two calls.
pub record IsSound (m : FeishuMessage) : Type 0 where
  pub paced : 5 * m.analysis_attempts + progress m.status ≤ m.version
  pub explained :
      (not (contains (analysis_failed ∷ dead_letter ∷ []) m.status)
        || not (is_falsy m.failure_code || is_falsy m.failure_message))
      ≡ true
  pub analysed :
      (not (contains (analysing ∷ candidate_created ∷ ignored ∷ []) m.status)
        || ltb 0 m.analysis_attempts)
      ≡ true

-- A message as it is stored first.
pub record IsNew (m : FeishuMessage) : Type 0 where
  pub status : contains (received ∷ unsupported ∷ []) m.status ≡ true
  pub attempts : m.analysis_attempts ≡ 0
  pub version : m.version ≡ 1

new-IsSound : (m : FeishuMessage) → IsNew m → IsSound m
unfolding progress
new-IsSound m n = ground arith

step-IsSound :
    (m : FeishuMessage) (s target : FeishuMessageStatus) (code message : Option Text)
    {m' : FeishuMessage}
    → m.status ≡ s
    → IsSound m
    → transition_to m target code message ≡ ok m'
    → IsSound m'
unfolding transition_to transitions progress
step-IsSound m received target code message e s h = ground arith
step-IsSound m queued_for_analysis target code message e s h = ground arith
step-IsSound m context_prepared target code message e s h = ground arith
step-IsSound m agent_queued target code message e s h = ground arith
step-IsSound m analysing target code message e s h = ground arith
step-IsSound m _ target code message e s h = ground arith

after-IsSound : (m : FeishuMessage) (c : Call) → IsSound m → IsSound (after m (perform m c))
unfolding perform
after-IsSound m (moving target code message) s =
    elim (Result-cases (transition_to m target code message)) [
      | inl (m', e) ↦ rw e (step-IsSound m m.status target code message refl s e)
      | inr (x, e) ↦ rw e s
    ]

run-IsSound : (m : FeishuMessage) (cs : List Call) → IsSound m → IsSound (run m cs)
unfolding run
run-IsSound m [] s = s
run-IsSound m (c ∷ cs) s = run-IsSound (after m (perform m c)) cs (after-IsSound m c s)

-- A new message has, after any moves, a version of at least five times the number of its analyses,
-- has been analysed at least once if it has a candidate or is ignored, and has a failure code and a
-- failure message if it failed or is a dead letter.
pub message-IsSound : (m : FeishuMessage) (cs : List Call) → IsNew m → IsSound (run m cs)
message-IsSound m cs n = run-IsSound m cs (new-IsSound m n)

unsupported-key_error :
    (m : FeishuMessage) (target : FeishuMessageStatus) (code message : Option Text)
    → m.status ≡ unsupported
    → transition_to m target code message ≡ err key_error
unfolding transition_to transitions
unsupported-key_error m target code message e = ground arith

-- An unsupported message is never changed by any moves.
pub run_unsupported : (m : FeishuMessage) (cs : List Call) → m.status ≡ unsupported → run m cs ≡ m
unfolding run perform
run_unsupported m [] e = refl
run_unsupported m (moving target code message ∷ cs) e =
    rw (unsupported-key_error m target code message e) (run_unsupported m cs e)

-- The statuses to go through, to get a candidate.
unfoldable pub route : FeishuMessageStatus → List FeishuMessageStatus
route analysing = candidate_created ∷ []
route agent_queued = analysing ∷ candidate_created ∷ []
route context_prepared = agent_queued ∷ analysing ∷ candidate_created ∷ []
route queued_for_analysis = context_prepared ∷ agent_queued ∷ analysing ∷ candidate_created ∷ []
route candidate_created = []
route _ = queued_for_analysis ∷ context_prepared ∷ agent_queued ∷ analysing ∷ candidate_created ∷ []

unfoldable pub moves : List FeishuMessageStatus → List Call
moves [] = []
moves (s ∷ ss) = moving s none none ∷ moves ss

-- An arrow that needs no reason.
abbrev is_arrow : FeishuMessageStatus → FeishuMessageStatus → Bool
is_arrow s target =
    elim (transitions s) [ none ↦ false | some ts ↦ contains ts target ]
    && not (contains (analysis_failed ∷ dead_letter ∷ []) target)

after_move :
    (m : FeishuMessage) (target : FeishuMessageStatus)
    → is_arrow m.status target ≡ true
    → (after m (perform m (moving target none none))).status ≡ target
unfolding perform transition_to
after_move m target h = ground arith

abbrev IsPath : FeishuMessageStatus → List FeishuMessageStatus → FeishuMessageStatus → Type 0
IsPath s [] t = s ≡ t
IsPath s (u ∷ us) t = (is_arrow s u ≡ true) × IsPath u us t

run-moves :
    (m : FeishuMessage) (us : List FeishuMessageStatus) (t : FeishuMessageStatus)
    → IsPath m.status us t
    → (run m (moves us)).status ≡ t
unfolding run moves
run-moves m [] t p = p
run-moves m (u ∷ us) t (arrow, rest) =
    run-moves (after m (perform m (moving u none none))) us t (rw (after_move m u arrow) rest)

route-IsPath : (s : FeishuMessageStatus) → s ≢ unsupported → IsPath s (route s) candidate_created
unfolding route transitions
route-IsPath unsupported n = absurd (n refl)
route-IsPath _ n = ground arith

-- Every message that is not unsupported, a failed one and a dead letter too, can still get a
-- candidate: the moves along its route are all accepted.
pub can_create_candidate :
    (m : FeishuMessage)
    → m.status ≢ unsupported
    → (run m (moves (route m.status))).status ≡ candidate_created
can_create_candidate m n = run-moves m (route m.status) candidate_created (route-IsPath m.status n)
