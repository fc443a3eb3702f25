-- ===== src/Orchestrator/Retries.antt =====
-- services/orchestrator/src/action-orchestration.mjs: createSecurityActionWorker, what becomes of an
-- attempt that fails, and when it is tried again.
use tenant_trust.Common.{
  ℕ, zero, suc, ◌-◌, ◌*◌, ◌^◌, ◌≤◌, ◌<◌, ◌≡◌, refl, ◌⊎◌, inl, inr, List, [], ◌∷◌, ◌++◌, String,
  Option, Bool, true, arith, leb, if◌then◌else◌, Result, ok, err, >>=-eq-ok, ◌>>=◌, some,
}
use native.Mathlib.Nat.{pow-le-pow_right}
use tenant_trust.Orchestrator.State.{SecurityActionState}
use tenant_trust.Orchestrator.Actions.{TransitionResult}
use tenant_trust.Orchestrator.Execution.{Claim, ServiceCall}
use tenant_trust.Orchestrator.Delivery.{failure_code-reason}
use tenant_trust.Orchestrator.Worker.{
  Repository, Failure, Call, marking_failed, Report, success, failure, Executor, retry_delay,
  failure_code, is_reason_code, transition_state, store_success, execute_transition, attempt,
  settle, run_claimed, minimum, success_of, store_failure,
}

-- The delay of a retry: 5 seconds, doubled at each attempt up to the seventh, and then 600 seconds.
abbrev pub backoff : ℕ → ℕ
backoff n = if leb n 7 then 5 * 2 ^ (n - 1) else 600

-- From the eighth attempt the delay is at its maximum.
late_delay : (n : ℕ) → 8 ≤ n → minimum 600 (5 * 2 ^ minimum (n - 1) 30) ≡ 600
late_delay n h =
    let exponent : 7 ≤ minimum (n - 1) 30 = ground arith in
    ground (arith, pow-le-pow_right {n = 2} (omega arith) exponent)

delay-backoff : (n : ℕ) → 1 ≤ n → minimum 600 (5 * 2 ^ minimum (n - 1) 30) ≡ backoff n
delay-backoff zero h = absurd (omega arith)
delay-backoff (suc zero) h = refl
delay-backoff (suc (suc zero)) h = refl
delay-backoff (suc (suc (suc zero))) h = refl
delay-backoff (suc (suc (suc (suc zero)))) h = refl
delay-backoff (suc (suc (suc (suc (suc zero))))) h = refl
delay-backoff (suc (suc (suc (suc (suc (suc zero)))))) h = refl
delay-backoff (suc (suc (suc (suc (suc (suc (suc zero))))))) h = refl
delay-backoff (suc (suc (suc (suc (suc (suc (suc (suc k)))))))) h =
    ground (arith, late_delay (suc (suc (suc (suc (suc (suc (suc (suc k)))))))) (omega arith))

retry_delay-backoff : (n : ℕ) → 1 ≤ n → n < 2 ^ 53 → retry_delay n ≡ ok (backoff n)
unfolding retry_delay
retry_delay-backoff n h k = let same = delay-backoff n h in ground arith

-- A report of a success.
abbrev pub IsSuccess : Report → Type 0
IsSuccess r =
    (status : String) × (changed : Bool) × (state : SecurityActionState) × (reference : Option
      String)
    × (r ≡ success status changed state reference)

-- The failure that a run stores.
abbrev pub failure_of : Claim → String → Failure
failure_of claim code = record {
  claim = claim;
  failure_code = code;
  retry_delay_seconds = backoff claim.attempt_count;
}

-- A run that has stored a success, or whose last call stores a failure, which it reports as the
-- repository answers.
abbrev pub Settles : Repository → Claim → List Call × Result Report → Type 0
Settles repository claim run =
    ((r : Report) × (run.1 ≡ ok r) × IsSuccess r)
    ⊎ ((calls : List Call) × (code : String) × (is_reason_code code ≡ true)
        × (run.0 ≡ calls ++ (marking_failed (failure_of claim code) ∷ []))
        × (run.1 ≡ (
            repository.mark_failed (failure_of claim code) >>= λ stored.
            ok (failure stored.status code stored.next_attempt_at))))

store_success-IsSuccess :
    (repository : Repository) (claim : Claim) (t : TransitionResult) (calls : List ServiceCall)
    (outcome : Result (Option String)) (r : Report)
    → (store_success repository claim t calls outcome).1 ≡ ok r
    → IsSuccess r
unfolding store_success
store_success-IsSuccess repository claim t calls (err code) r h = cc
store_success-IsSuccess repository claim t calls (ok reference) r h =
    let (stored, _, h1) =
      >>=-eq-ok (repository.mark_succeeded (success_of claim t reference)) _ h in
    (stored.status, t.changed, t.state, reference, same h1)
  where
    same : {x y : Report} → ok x ≡ ok y → y ≡ x
    same e = cc

execute_transition-IsSuccess :
    (executor : Executor) (repository : Repository) (claim : Claim) (o : Result TransitionResult)
    (r : Report)
    → (execute_transition executor repository claim o).1 ≡ ok r
    → IsSuccess r
unfolding execute_transition
execute_transition-IsSuccess executor repository claim (err code) r h = cc
execute_transition-IsSuccess executor repository claim (ok t) r h =
    store_success-IsSuccess repository claim t _ _ r h

attempt-IsSuccess :
    (executor : Executor) (repository : Repository) (claim : Claim) (r : Report)
    → (attempt executor repository claim).1 ≡ ok r
    → IsSuccess r
unfolding attempt
attempt-IsSuccess executor repository claim r h =
    execute_transition-IsSuccess executor repository claim (transition_state claim) r h

settle-Settles :
    (repository : Repository) (claim : Claim) (run : List Call × Result Report)
    → 1 ≤ claim.attempt_count
    → claim.attempt_count < 2 ^ 53
    → ((r : Report) → run.1 ≡ ok r → IsSuccess r)
    → Settles repository claim (settle repository claim run)
unfolding settle store_failure
settle-Settles repository claim (calls, ok r) h k good = inl (r, refl, good r refl)
settle-Settles repository claim (calls, err code) h k good =
    rw (retry_delay-backoff claim.attempt_count h k)
      (inr (calls, failure_code code, failure_code-reason code, refl, refl))

-- On a claim whose attempt count is a safe integer from 1 up, a run of the worker, with any
-- executor and any repository, either reports a success or ends with a call that stores a failure
-- of the claim under a reason code, with a delay of 5 seconds that doubles at each attempt up to
-- the seventh and of 600 seconds from then on, and it reports what the repository answers to that
-- call.
pub run_claimed-Settles :
    (executor : Executor) (repository : Repository) (claim : Claim)
    → 1 ≤ claim.attempt_count
    → claim.attempt_count < 2 ^ 53
    → Settles repository claim (run_claimed executor repository (ok (some claim)))
unfolding run_claimed
run_claimed-Settles executor repository claim h k =
    settle-Settles repository claim (attempt executor repository claim) h k
      (attempt-IsSuccess executor repository claim)
