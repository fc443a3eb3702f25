-- ===== src/Orchestrator/Invalidation/Completion.antt =====
-- services/orchestrator/src/security-state-invalidation.mjs: a completion that the worker reports is
-- confirmed by the repository.
use tenant_trust.Orchestrator.Invalidation.Store.{Invalidated}
use tenant_trust.Common.{
  ℕ, ◌+◌, List, none, some, true, false, refl, ok, err, arith, Result, ◌≡◌, String, ◌≤◌, Bool, leb,
  ◌↔◌, >>=-eq-ok, Option, guard, subst, str_eq, sym, ◌==◌, ap, ◌&&◌, both_true, guard-eq-ok,
  str_eq_iff,
}
use tenant_trust.Orchestrator.Invalidation.Worker.{
  nothing_claimed, completed, failed, InvalidationClaim, enforcement_delay,
  invalidation_retry_delay, InvalidationCall, InvalidationRepository, check_completion,
  run_invalidation_claim, InvalidationStatus, attempt_invalidation, complete, settle_invalidation,
  store_invalidation_failure, InvalidationReport, is_option, same_truth,
}
use tenant_trust.Orchestrator.Invalidation.Delivery.{enforcement_delay-eq-ok}

-- A completion that the repository has confirmed.
pub record Confirmed (repository : InvalidationRepository)
    (store : InvalidationClaim → Result Invalidated) (claim : InvalidationClaim) (r : Invalidated)
    (delay : ℕ) (within : Bool) : Type 0 where
  pub stored : InvalidationStatus
  pub invalidated : store claim ≡ ok r
  pub lasted : claim.action_succeeded_at + delay ≡ r.invalidated_at
  pub marked : repository.mark_completed claim r ≡ ok stored
  pub is_completed : stored.status ≡ "completed"
  pub same_delay : stored.enforcement_delay_ms ≡ some delay
  pub same_target : stored.within_target ≡ some within
  pub in_time : (within ≡ true) ↔ (delay ≤ 5_000)

-- The stored delay and the stored test, when they are those of the run.
same_delay_lem : (o : Option ℕ) (d : ℕ) → is_option (λ e. e == d) o ≡ true → o ≡ some d
same_delay_lem none d h = cc
same_delay_lem (some e) d h = ap some (ground arith)

same_truth_lem : (o : Option Bool) (b : Bool) → is_option (same_truth b) o ≡ true → o ≡ some b
same_truth_lem none b h = cc
same_truth_lem (some true) true h = refl
same_truth_lem (some false) true h = cc
same_truth_lem (some true) false h = cc
same_truth_lem (some false) false h = refl

check_completion-Confirmed :
    (repository : InvalidationRepository) (store : InvalidationClaim → Result Invalidated)
    (c : InvalidationClaim) (r : Invalidated) (d : ℕ) (stored : InvalidationStatus)
    → store c ≡ ok r
    → enforcement_delay c r ≡ ok d
    → repository.mark_completed c r ≡ ok stored
    → (report : InvalidationReport) → check_completion c r d stored ≡ ok report
    → (report ≡ completed c r d (leb d 5_000)) × Confirmed repository store c r d (leb d 5_000)
unfolding check_completion
check_completion-Confirmed repository store c r d stored invalidated delayed marked report h =
    let (_, good, h1) =
      >>=-eq-ok
        (guard
          (str_eq stored.status "completed"
            && is_option (λ e. e == d) stored.enforcement_delay_ms
            && is_option (same_truth (leb d 5_000)) stored.within_target)
          _)
        _ h in
    let (front, target) =
      both_true _ (is_option (same_truth (leb d 5_000)) stored.within_target)
        (guard-eq-ok _ _ good) in
    let (status, delay) =
      both_true (str_eq stored.status "completed")
        (is_option (λ e. e == d) stored.enforcement_delay_ms) front in
    (
      cc,
      record {
        stored = stored;
        invalidated = invalidated;
        lasted = enforcement_delay-eq-ok c r d delayed;
        marked = marked;
        is_completed = (str_eq_iff stored.status "completed").0 status;
        same_delay = same_delay_lem stored.enforcement_delay_ms d delay;
        same_target = same_truth_lem stored.within_target (leb d 5_000) target;
        in_time = ((λ e. ground arith), (λ e. ground arith));
      },
    )

-- A completion that a run reports is confirmed.
abbrev Reported :
    InvalidationRepository
    → (InvalidationClaim → Result Invalidated)
    → InvalidationClaim
    → InvalidationReport
    → Type 0
Reported repository store claim nothing_claimed = Unit
Reported repository store claim (completed c r d within) =
    (c ≡ claim) × Confirmed repository store c r d within
Reported repository store claim (failed status c code) = Unit

complete-Reported :
    (repository : InvalidationRepository) (store : InvalidationClaim → Result Invalidated)
    (c : InvalidationClaim) (r : Invalidated) (delay : Result ℕ) (report : InvalidationReport)
    → store c ≡ ok r
    → enforcement_delay c r ≡ delay
    → (complete repository c r delay).1 ≡ ok report
    → Reported repository store c report
unfolding complete
complete-Reported repository store c r (err code) report e f h = cc
complete-Reported repository store c r (ok d) report e f h =
    let (stored, marked, h1) = >>=-eq-ok (repository.mark_completed c r) _ h in
    let (same, confirmed) =
      check_completion-Confirmed repository store c r d stored e f marked report h1 in
    subst (λ x. Reported repository store c x) (sym same) (refl, confirmed)

attempt-Reported :
    (repository : InvalidationRepository) (store : InvalidationClaim → Result Invalidated)
    (c : InvalidationClaim) (o : Result Invalidated) (report : InvalidationReport)
    → store c ≡ o
    → (attempt_invalidation repository c o).1 ≡ ok report
    → Reported repository store c report
unfolding attempt_invalidation
attempt-Reported repository store c (err code) report e h = cc
attempt-Reported repository store c (ok r) report e h =
    complete-Reported repository store c r (enforcement_delay c r) report e refl h

failure-Reported :
    (repository : InvalidationRepository) (store : InvalidationClaim → Result Invalidated)
    (c : InvalidationClaim) (calls : List InvalidationCall) (code : String) (delay : Result ℕ)
    (report : InvalidationReport)
    → (store_invalidation_failure repository c calls code delay).1 ≡ ok report
    → Reported repository store c report
unfolding store_invalidation_failure
failure-Reported repository store c calls code (err other) report h = cc
failure-Reported repository store c calls code (ok d) report h =
    let (stored, _, h1) = >>=-eq-ok (repository.mark_failed _) _ h in
    subst (λ x. Reported repository store c x) (reported_of h1) tt
  where
    reported_of :
        {x : InvalidationReport}
        → ◌≡◌ {A = Result InvalidationReport} (ok x) (ok report)
        → x ≡ report
    reported_of k = cc

settle-Reported :
    (repository : InvalidationRepository) (store : InvalidationClaim → Result Invalidated)
    (c : InvalidationClaim) (run : List InvalidationCall × Result InvalidationReport)
    (report : InvalidationReport)
    → ((shown : InvalidationReport) → run.1 ≡ ok shown → Reported repository store c shown)
    → (settle_invalidation repository c run).1 ≡ ok report
    → Reported repository store c report
unfolding settle_invalidation
settle-Reported repository store c (calls, ok shown) report known h = known report h
settle-Reported repository store c (calls, err code) report known h =
    failure-Reported repository store c calls code (invalidation_retry_delay c.attempt_count) report
      h

-- A completion that a run of the invalidation worker reports on a claim is of that claim, with the
-- result of the store and the delay between the action and its enforcement, which the repository
-- has confirmed as completed with the same delay and the same answer to whether it was at most 5000
-- milliseconds.
pub run_invalidation_claim-Confirmed :
    (repository : InvalidationRepository) (store : InvalidationClaim → Result Invalidated)
    (claim c : InvalidationClaim) (r : Invalidated) (delay : ℕ) (within : Bool)
    → (run_invalidation_claim repository store (ok (some claim))).1
      ≡ ok (completed c r delay within)
    → (c ≡ claim) × Confirmed repository store c r delay within
unfolding run_invalidation_claim
run_invalidation_claim-Confirmed repository store claim c r delay within h =
    settle-Reported repository store claim (attempt_invalidation repository claim (store claim))
      (completed c r delay within)
      (λ shown k. attempt-Reported repository store claim (store claim) shown refl k) h
