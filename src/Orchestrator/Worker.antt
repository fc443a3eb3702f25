-- ===== src/Orchestrator/Worker.antt =====
-- services/orchestrator/src/action-orchestration.mjs: createSecurityActionWorker. The repository and
-- the executor are parameters; the calls of one run are noted in their order. An error without a
-- reason code is `err ""`.
use tenant_trust.Common.{
  ℕ, ◌*◌, ◌-◌, ◌^◌, String, List, [], ◌∷◌, ◌++◌, map, Option, none, some, Bool, true, false, ◌&&◌,
  ◌||◌, leb, ◌==◌, if◌then◌else◌, str_eq, all, length, codes, Result, ok, err, ◌>>=◌, ◌>>◌, guard,
  ltb,
}
use tenant_trust.Orchestrator.State.{SecurityActionState, check_security_action_state}
use tenant_trust.Orchestrator.Actions.{TransitionResult, transition}
use tenant_trust.Orchestrator.Execution.{
  Claim, Action, ServiceCall, Confirmation, is_external_reference,
}

pub record Success : Type 0 where
  pub claim : Claim
  pub result_state : SecurityActionState
  pub external_reference : Option String

pub record Failure : Type 0 where
  pub claim : Claim
  pub failure_code : String
  pub retry_delay_seconds : ℕ

-- The part of a stored status that the worker reads.
pub record StoredStatus : Type 0 where
  pub status : String
  pub next_attempt_at : Option ℕ

pub record Repository : Type 0 where
  pub claim_next : Result (Option Claim)
  pub mark_succeeded : Success → Result StoredStatus
  pub mark_failed : Failure → Result StoredStatus

pub data Call : Type 0 where
  service : ServiceCall → Call
  marking_succeeded : Success → Call
  marking_failed : Failure → Call

pub data Report : Type 0 where
  idle : Report
  success :
      (status : String) (changed : Bool) (state : SecurityActionState)
      (external_reference : Option String)
      → Report
  failure : (status failure_code : String) (next_attempt_at : Option ℕ) → Report

abbrev pub Executor : Type 0
Executor = Action → List ServiceCall × Result Confirmation

abbrev pub minimum : ℕ → ℕ → ℕ
minimum a b = if leb a b then a else b

-- `retryDelay`, in seconds.
unfoldable pub retry_delay : ℕ → Result ℕ
retry_delay attempt_count = do
  guard (leb 1 attempt_count && ltb attempt_count (2 ^ 53)) "SECURITY_ACTION_SOURCE_INVALID"
  ok (minimum 600 (5 * 2 ^ minimum (attempt_count - 1) 30))

-- REASON_CODE: from 3 to 64 capital letters, digits and underscores, the first a letter.
abbrev is_capital : ℕ → Bool
is_capital c = leb b'A' c && leb c b'Z'

abbrev is_reason_character : ℕ → Bool
is_reason_character c = is_capital c || (leb b'0' c && leb c b'9') || c == b'_'

abbrev starts_reason : List ℕ → Bool
starts_reason [] = false
starts_reason (c ∷ cs) = is_capital c && all is_reason_character cs

unfoldable pub is_reason_code : String → Bool
is_reason_code s = starts_reason (codes s) && leb 3 (length (codes s)) && leb (length (codes s)) 64

-- `failureCode`.
unfoldable pub failure_code : String → String
unfolding is_reason_code
failure_code code = if is_reason_code code then code else "ACTION_EXECUTION_FAILED"

-- The transition of a claim, through the checks of its state.
unfoldable pub transition_state : Claim → Result TransitionResult
transition_state claim = do
  current ← check_security_action_state claim.current_state
  transition current claim.action_type

abbrev pub is_reference_or_null : Option String → Bool
is_reference_or_null none = true
is_reference_or_null (some s) = is_external_reference s

-- The test of a confirmation, with its external reference. One that is missing fails in the same way.
unfoldable pub check_confirmation : Claim → Confirmation → Result (Option String)
check_confirmation claim confirmation = do
  guard
      (str_eq confirmation.action_id claim.action_id
        && str_eq confirmation.status "succeeded"
        && is_reference_or_null confirmation.external_reference)
      "SECURITY_ACTION_EXECUTION_UNCONFIRMED"
  ok confirmation.external_reference

abbrev pub success_of : Claim → TransitionResult → Option String → Success
success_of claim t reference = record {
  claim = claim;
  result_state = t.state;
  external_reference = reference;
}

-- The end of the `try` block, from what the executor has confirmed.
unfoldable pub store_success :
    Repository
    → Claim
    → TransitionResult
    → List ServiceCall
    → Result (Option String)
    → List Call × Result Report
store_success repository claim t calls (err code) = (map service calls, err code)
store_success repository claim t calls (ok reference) = (
  map service calls ++ (marking_succeeded (success_of claim t reference) ∷ []),
  repository.mark_succeeded (success_of claim t reference) >>= λ stored.
      ok (success stored.status t.changed t.state reference),
)

unfoldable pub execute_transition :
    Executor → Repository → Claim → Result TransitionResult → List Call × Result Report
unfolding store_success check_confirmation
execute_transition executor repository claim (err code) = ([], err code)
execute_transition executor repository claim (ok t) =
    let action : Action = record { claim = claim; next_state = t.state; changed = t.changed } in
    store_success repository claim t (executor action).0
      ((executor action).1 >>= check_confirmation claim)

-- The `try` block.
unfoldable pub attempt : Executor → Repository → Claim → List Call × Result Report
unfolding execute_transition transition_state
attempt executor repository claim =
    execute_transition executor repository claim (transition_state claim)

-- The `catch` block.
unfoldable pub store_failure :
    Repository → Claim → List Call → String → Result ℕ → List Call × Result Report
store_failure repository claim calls code (err code') = (calls, err code')
store_failure repository claim calls code (ok delay) =
    let failed : Failure = record {
      claim = claim;
      failure_code = failure_code code;
      retry_delay_seconds = delay;
    } in
    (
      calls ++ (marking_failed failed ∷ []),
      repository.mark_failed failed >>= λ stored.
          ok (failure stored.status (failure_code code) stored.next_attempt_at),
    )

unfoldable pub settle : Repository → Claim → List Call × Result Report → List Call × Result Report
unfolding store_failure retry_delay
settle repository claim (calls, ok report) = (calls, ok report)
settle repository claim (calls, err code) =
    store_failure repository claim calls code (retry_delay claim.attempt_count)

-- `runOnce`.
unfoldable pub run_claimed :
    Executor → Repository → Result (Option Claim) → List Call × Result Report
unfolding settle attempt
run_claimed executor repository (err code) = ([], err code)
run_claimed executor repository (ok none) = ([], ok idle)
run_claimed executor repository (ok (some claim)) =
    settle repository claim (attempt executor repository claim)

unfoldable pub run_once : Executor → Repository → List Call × Result Report
unfolding run_claimed
run_once executor repository = run_claimed executor repository repository.claim_next
