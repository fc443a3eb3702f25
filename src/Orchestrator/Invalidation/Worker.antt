-- ===== src/Orchestrator/Invalidation/Worker.antt =====
-- services/orchestrator/src/security-state-invalidation.mjs: createSecurityStateInvalidationWorker. The
-- repository and the store are parameters; the calls of one run that write are noted in their
-- order. An error without a reason code is `err ""`.
use tenant_trust.Common.{
  ℕ, ◌-◌, ◌^◌, String, List, [], ◌∷◌, ◌++◌, Option, none, some, Bool, true, false, ◌&&◌, leb, ltb,
  ◌==◌, if◌then◌else◌, str_eq, Result, ok, err, guard, ◌>>=◌, ◌>>◌, ◌*◌,
}
use tenant_trust.Orchestrator.Invalidation.Store.{Invalidated}
use tenant_trust.Orchestrator.Worker.{is_reason_code, minimum}

pub record InvalidationClaim : Type 0 where
  pub tenant_id : String
  pub action_id : String
  pub subject_id : String
  pub certificate_id : String
  pub action_type : String
  pub claim_token : String
  pub attempt_count : ℕ
  pub action_succeeded_at : ℕ

pub record InvalidationStatus : Type 0 where
  pub status : String
  pub enforcement_delay_ms : Option ℕ
  pub within_target : Option Bool

pub record InvalidationFailure : Type 0 where
  pub claim : InvalidationClaim
  pub failure_code : String
  pub retry_delay_seconds : ℕ

pub data InvalidationCall : Type 0 where
  completing : InvalidationClaim → Invalidated → InvalidationCall
  failing : InvalidationFailure → InvalidationCall

pub record InvalidationRepository : Type 0 where
  pub claim_next : Result (Option InvalidationClaim)
  pub mark_completed : InvalidationClaim → Invalidated → Result InvalidationStatus
  pub mark_failed : InvalidationFailure → Result InvalidationStatus

pub data InvalidationReport : Type 0 where
  nothing_claimed : InvalidationReport
  completed :
      (claim : InvalidationClaim) (result : Invalidated) (enforcement_delay_ms : ℕ)
      (within_target : Bool)
      → InvalidationReport
  failed :
      (status : String) (claim : InvalidationClaim) (failure_code : String) → InvalidationReport

-- SECURITY_STATE_INVALIDATION_POLICY.
abbrev pub maximum_enforcement_delay_ms : ℕ
maximum_enforcement_delay_ms = 5_000

-- `retryDelay`, in seconds.
unfoldable pub invalidation_retry_delay : ℕ → Result ℕ
invalidation_retry_delay attempt_count = do
  guard (leb 1 attempt_count && ltb attempt_count (2 ^ 53)) "SECURITY_INVALIDATION_SOURCE_INVALID"
  ok (minimum 60 (1 * 2 ^ minimum (attempt_count - 1) 30))

-- `failureCode`.
unfoldable pub invalidation_failure_code : String → String
invalidation_failure_code code =
    if is_reason_code code then code else "SECURITY_INVALIDATION_FAILED"

-- The delay of the enforcement, in milliseconds, which is refused below 0.
unfoldable pub enforcement_delay : InvalidationClaim → Invalidated → Result ℕ
enforcement_delay claim result = do
  guard
      (leb claim.action_succeeded_at result.invalidated_at
        && ltb (result.invalidated_at - claim.action_succeeded_at) (2 ^ 53))
      "SECURITY_INVALIDATION_RESULT_INVALID"
  ok (result.invalidated_at - claim.action_succeeded_at)

abbrev pub is_option {ℓ} : {A : Type ℓ} → (A → Bool) → Option A → Bool
is_option p none = false
is_option p (some a) = p a

abbrev pub same_truth : Bool → Bool → Bool
same_truth true b = b
same_truth false true = false
same_truth false false = true

-- What the repository must have stored.
unfoldable pub check_completion :
    InvalidationClaim → Invalidated → ℕ → InvalidationStatus → Result InvalidationReport
check_completion claim result delay stored = do
  let within_target = leb delay maximum_enforcement_delay_ms
  guard
      (str_eq stored.status "completed"
        && is_option (λ d. d == delay) stored.enforcement_delay_ms
        && is_option (same_truth within_target) stored.within_target)
      "SECURITY_INVALIDATION_COMPLETION_INVALID"
  ok (completed claim result delay within_target)

module _ (repository : InvalidationRepository) where
  unfoldable pub complete :
      InvalidationClaim → Invalidated → Result ℕ → List InvalidationCall × Result InvalidationReport
  unfolding check_completion
  complete claim result (err code) = ([], err code)
  complete claim result (ok delay) = (
    completing claim result ∷ [],
    repository.mark_completed claim result >>= check_completion claim result delay,
  )

  -- The `try` block, from what the store has done.
  unfoldable pub attempt_invalidation :
      InvalidationClaim → Result Invalidated → List InvalidationCall × Result InvalidationReport
  unfolding complete enforcement_delay
  attempt_invalidation claim (err code) = ([], err code)
  attempt_invalidation claim (ok result) = complete claim result (enforcement_delay claim result)

  -- The `catch` block.
  unfoldable pub store_invalidation_failure :
      InvalidationClaim
      → List InvalidationCall
      → String
      → Result ℕ
      → List InvalidationCall × Result InvalidationReport
  unfolding invalidation_failure_code
  store_invalidation_failure claim calls code (err code') = (calls, err code')
  store_invalidation_failure claim calls code (ok delay) =
      let failure : InvalidationFailure = record {
        claim = claim;
        failure_code = invalidation_failure_code code;
        retry_delay_seconds = delay;
      } in
      (
        calls ++ (failing failure ∷ []),
        repository.mark_failed failure >>= λ stored.
            ok (failed stored.status claim (invalidation_failure_code code)),
      )

  unfoldable pub settle_invalidation :
      InvalidationClaim
      → List InvalidationCall × Result InvalidationReport
      → List InvalidationCall × Result InvalidationReport
  unfolding store_invalidation_failure invalidation_retry_delay
  settle_invalidation claim (calls, ok report) = (calls, ok report)
  settle_invalidation claim (calls, err code) =
      store_invalidation_failure claim calls code (invalidation_retry_delay claim.attempt_count)

  -- `runOnce`, from the claim.
  unfoldable pub run_invalidation_claim :
      (InvalidationClaim → Result Invalidated)
      → Result (Option InvalidationClaim)
      → List InvalidationCall × Result InvalidationReport
  unfolding settle_invalidation attempt_invalidation
  run_invalidation_claim store (err code) = ([], err code)
  run_invalidation_claim store (ok none) = ([], ok nothing_claimed)
  run_invalidation_claim store (ok (some claim)) =
      settle_invalidation claim (attempt_invalidation claim (store claim))

  unfoldable pub run_invalidation_once :
      (InvalidationClaim → Result Invalidated) → List InvalidationCall × Result InvalidationReport
  unfolding run_invalidation_claim
  run_invalidation_once store = run_invalidation_claim store repository.claim_next
