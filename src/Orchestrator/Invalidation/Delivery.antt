-- ===== src/Orchestrator/Invalidation/Delivery.antt =====
-- services/orchestrator/src/security-state-invalidation.mjs: what a run of the worker guarantees.
use native.Mathlib.Nat.{one-le-pow}
use tenant_trust.Orchestrator.Worker.{is_reason_code, minimum}
use tenant_trust.Orchestrator.Invalidation.Store.{Invalidated}
use tenant_trust.Common.{
  ℕ, ◌+◌, List, [], ◌∷◌, ◌++◌, some, true, refl, ok, err, All, inl, inr, arith, Result, ◌≡◌, String,
  ◌≤◌, Bool-cases, ◌-◌,
}
use tenant_trust.Orchestrator.Invalidation.Worker.{
  completing, failing, InvalidationClaim, enforcement_delay, invalidation_failure_code,
  invalidation_retry_delay, InvalidationCall, InvalidationRepository, run_invalidation_claim,
  attempt_invalidation, complete, settle_invalidation, store_invalidation_failure,
  InvalidationReport,
}

-- What a call of a run rests on: a completion is stored for the claim, as the store reported it, at an
-- instant from that of the action on; a failure with a reason code and a delay from 1 to 60 seconds.
abbrev pub InvalidationSound :
    (InvalidationClaim → Result Invalidated) → InvalidationClaim → InvalidationCall → Type 0
InvalidationSound store claim (completing c r) =
    (c ≡ claim) × (store claim ≡ ok r) × (claim.action_succeeded_at ≤ r.invalidated_at)
InvalidationSound store claim (failing f) =
    (f.claim ≡ claim)
    × (is_reason_code f.failure_code ≡ true)
    × (1 ≤ f.retry_delay_seconds)
    × (f.retry_delay_seconds ≤ 60)

invalidation_retry_delay-bounds : (n d : ℕ) → invalidation_retry_delay n ≡ ok d → (1 ≤ d) × (d ≤ 60)
unfolding invalidation_retry_delay
invalidation_retry_delay-bounds n d h =
    ground (arith, one-le-pow (minimum (n - 1) 30) 2 (omega arith))

reserved_code : is_reason_code "SECURITY_INVALIDATION_FAILED" ≡ true
unfolding is_reason_code
reserved_code = refl

invalidation_failure_code-valid :
    (code : String) → is_reason_code (invalidation_failure_code code) ≡ true
unfolding invalidation_failure_code
invalidation_failure_code-valid code = elim (Bool-cases (is_reason_code code)) [
  | inl good ↦ rw good good
  | inr bad ↦ rw bad reserved_code
]

pub enforcement_delay-eq-ok :
    (claim : InvalidationClaim) (r : Invalidated) (d : ℕ)
    → enforcement_delay claim r ≡ ok d
    → claim.action_succeeded_at + d ≡ r.invalidated_at
unfolding enforcement_delay
enforcement_delay-eq-ok claim r d h = ground arith

All-append :
    (P : InvalidationCall → Type 0) (xs ys : List InvalidationCall)
    → All P xs
    → All P ys
    → All P (xs ++ ys)
All-append P [] ys h k = k
All-append P (x ∷ xs) ys (h, hs) k = (h, All-append P xs ys hs k)

module _ (repository : InvalidationRepository)
    (store : InvalidationClaim → Result Invalidated) where
  complete-InvalidationSound :
      (claim : InvalidationClaim) (r : Invalidated) (delay : Result ℕ)
      → store claim ≡ ok r
      → enforcement_delay claim r ≡ delay
      → All (InvalidationSound store claim) (complete repository claim r delay).0
  unfolding complete
  complete-InvalidationSound claim r (err code) e f = tt
  complete-InvalidationSound claim r (ok d) e f =
      let sum = enforcement_delay-eq-ok claim r d f in ((refl, e, omega (arith, sum)), tt)

  attempt-InvalidationSound :
      (claim : InvalidationClaim) (o : Result Invalidated)
      → store claim ≡ o
      → All (InvalidationSound store claim) (attempt_invalidation repository claim o).0
  unfolding attempt_invalidation
  attempt-InvalidationSound claim (err code) e = tt
  attempt-InvalidationSound claim (ok r) e =
      complete-InvalidationSound claim r (enforcement_delay claim r) e refl

  failure-InvalidationSound :
      (claim : InvalidationClaim) (calls : List InvalidationCall) (code : String) (delay : Result ℕ)
      → All (InvalidationSound store claim) calls
      → invalidation_retry_delay claim.attempt_count ≡ delay
      → All
          (InvalidationSound store claim)
          (store_invalidation_failure repository claim calls code delay).0
  unfolding store_invalidation_failure
  failure-InvalidationSound claim calls code (err other) h e = h
  failure-InvalidationSound claim calls code (ok d) h e =
      let (positive, bounded) = invalidation_retry_delay-bounds claim.attempt_count d e in
      All-append (InvalidationSound store claim) calls _ h
        ((refl, invalidation_failure_code-valid code, positive, bounded), tt)

  settle-InvalidationSound :
      (claim : InvalidationClaim) (run : List InvalidationCall × Result InvalidationReport)
      → All (InvalidationSound store claim) run.0
      → All (InvalidationSound store claim) (settle_invalidation repository claim run).0
  unfolding settle_invalidation
  settle-InvalidationSound claim (calls, ok report) h = h
  settle-InvalidationSound claim (calls, err code) h =
      failure-InvalidationSound claim calls code (invalidation_retry_delay claim.attempt_count) h
        refl

-- In a run of the invalidation worker on a claim, a completion is stored only for that claim with
-- the result of the store, at an instant not before that of the action, and a failure is stored
-- only for that claim, with a well-formed reason code and a delay from 1 to 60 seconds.
pub run_invalidation_claim-InvalidationSound :
    (repository : InvalidationRepository) (store : InvalidationClaim → Result Invalidated)
    (claim : InvalidationClaim)
    → All
        (InvalidationSound store claim)
        (run_invalidation_claim repository store (ok (some claim))).0
unfolding run_invalidation_claim
run_invalidation_claim-InvalidationSound repository store claim =
    settle-InvalidationSound repository store claim
      (attempt_invalidation repository claim (store claim))
      (attempt-InvalidationSound repository store claim (store claim) refl)
