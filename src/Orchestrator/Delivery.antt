-- ===== src/Orchestrator/Delivery.antt =====
-- What a run of the worker guarantees: the calls that it makes, the state that it stores, and when it
-- tries again.
use tenant_trust.Common.{
  ℕ, ◌-◌, ◌≤◌, ◌≡◌, refl, inl, inr, String, List, [], ◌∷◌, ◌++◌, map, Option, some, Bool, true,
  arith, All, Result, ok, err, >>=-eq-ok, Bool-cases, Result-cases,
}
use native.Mathlib.Nat.{one-le-pow}
use tenant_trust.Orchestrator.State.{SecurityActionState}
use tenant_trust.Orchestrator.Actions.{
  revoke_certificate, issue_replacement_certificate, TransitionResult,
}
use tenant_trust.Orchestrator.Execution.{
  Claim, Action, Services, ServiceCall, revoking, issuing, execute, has_recovery_authorization,
}
use tenant_trust.Orchestrator.Worker.{
  Repository, StoredStatus, Call, service, marking_succeeded, marking_failed, Report, success,
  Executor, retry_delay, failure_code, is_reason_code, transition_state, store_success,
  execute_transition, attempt, store_failure, settle, run_claimed, success_of, minimum,
}

-- Why a service is called: for the action itself, and for a recovery action with an authorization
-- that is not over.
abbrev pub Justified : Action → ℕ → ServiceCall → Type 0
Justified action now (revoking a) = (a ≡ action) × (action.claim.action_type ≡ revoke_certificate)
Justified action now (issuing a) =
    (a ≡ action)
    × (action.claim.action_type ≡ issue_replacement_certificate)
    × (has_recovery_authorization action.claim now ≡ true)

pub execute-Justified :
    (services : Services) (now : ℕ) (action : Action)
    → All (Justified action now) (execute services now action).0
unfolding execute
execute-Justified services now action =
    elim (Bool-cases (has_recovery_authorization action.claim now)) [
      | inl good ↦ ground arith
      | inr bad ↦ ground arith
    ]

abbrev pub action_of : Claim → TransitionResult → Action
action_of claim t = record { claim = claim; next_state = t.state; changed = t.changed }

-- What a call of a run rests on: a service is called, and a success stored, only for a transition that
-- the state machine makes, a service only with its justification, and a failure is stored with a
-- reason code and a delay from 1 to 600 seconds.
abbrev pub Sound : Claim → ℕ → Call → Type 0
Sound claim now (service call) =
    (t : TransitionResult) × (transition_state claim ≡ ok t)
    × Justified (action_of claim t) now call
Sound claim now (marking_succeeded s) =
    (t : TransitionResult) × (transition_state claim ≡ ok t)
    × (s.claim ≡ claim)
    × (s.result_state ≡ t.state)
Sound claim now (marking_failed f) =
    (f.claim ≡ claim)
    × (is_reason_code f.failure_code ≡ true)
    × (1 ≤ f.retry_delay_seconds)
    × (f.retry_delay_seconds ≤ 600)

All-append : (P : Call → Type 0) (xs ys : List Call) → All P xs → All P ys → All P (xs ++ ys)
All-append P [] ys h k = k
All-append P (x ∷ xs) ys (h, hs) k = (h, All-append P xs ys hs k)

services-Sound :
    (claim : Claim) (now : ℕ) (t : TransitionResult) (calls : List ServiceCall)
    → transition_state claim ≡ ok t
    → All (Justified (action_of claim t) now) calls
    → All (Sound claim now) (map service calls)
services-Sound claim now t [] e h = tt
services-Sound claim now t (c ∷ calls) e (h, hs) =
    ((t, e, h), services-Sound claim now t calls e hs)

store_success-Sound :
    (repository : Repository) (claim : Claim) (now : ℕ) (t : TransitionResult)
    (calls : List ServiceCall) (outcome : Result (Option String))
    → transition_state claim ≡ ok t
    → All (Justified (action_of claim t) now) calls
    → All (Sound claim now) (store_success repository claim t calls outcome).0
unfolding store_success
store_success-Sound repository claim now t calls (err code) e h =
    services-Sound claim now t calls e h
store_success-Sound repository claim now t calls (ok reference) e h =
    All-append (Sound claim now) (map service calls) _ (services-Sound claim now t calls e h)
      ((t, e, refl, refl), tt)

attempt-Sound :
    (services : Services) (now : ℕ) (repository : Repository) (claim : Claim)
    → All (Sound claim now) (attempt (execute services now) repository claim).0
unfolding attempt execute_transition
attempt-Sound services now repository claim = elim (Result-cases (transition_state claim)) [
  | inl (t, made) ↦ rw made (
      store_success-Sound repository claim now t _ _ made
        (execute-Justified services now (action_of claim t)))
  | inr (code, refused) ↦ rw refused tt
]

pub failure_code-reason : (code : String) → is_reason_code (failure_code code) ≡ true
unfolding failure_code
failure_code-reason code = elim (Bool-cases (is_reason_code code)) [
  | inl good ↦ rw good good
  | inr bad ↦ rw bad refl
]

retry_delay_bounds : (n : ℕ) {d : ℕ} → retry_delay n ≡ ok d → (1 ≤ d) × (d ≤ 600)
unfolding retry_delay
retry_delay_bounds n {d} h = ground (arith, one-le-pow (minimum (n - 1) 30) 2 (omega arith))

settle-Sound :
    (repository : Repository) (claim : Claim) (now : ℕ) (calls : List Call)
    (outcome : Result Report)
    → All (Sound claim now) calls
    → All (Sound claim now) (settle repository claim (calls, outcome)).0
unfolding settle store_failure
settle-Sound repository claim now calls (ok report) h = h
settle-Sound repository claim now calls (err code) h =
    elim (Result-cases (retry_delay claim.attempt_count)) [
      | inl (d, delay) ↦
          let (positive, bounded) = retry_delay_bounds claim.attempt_count delay in
          let good = failure_code-reason code in
          rw delay (All-append (Sound claim now) calls _ h ((refl, good, positive, bounded), tt))
      | inr (other, bad) ↦ rw bad h
    ]

-- In a run of the worker with the executor on a claim, a service is called and a success is stored
-- only for a transition that the state machine makes from the state of the claim; a revocation is
-- called only for an action that revokes, the issue of a replacement only for such an action with a
-- recovery authorization that is not over; the stored state is that of the transition, and a stored
-- failure has a reason code and a delay from 1 to 600 seconds.
pub run_claimed-Sound :
    (services : Services) (now : ℕ) (repository : Repository) (claim : Claim)
    → All (Sound claim now) (run_claimed (execute services now) repository (ok (some claim))).0
unfolding run_claimed
run_claimed-Sound services now repository claim =
    let tried = attempt (execute services now) repository claim in
    settle-Sound repository claim now tried.0 tried.1 (attempt-Sound services now repository claim)

-- A success that is reported: the state is that of the transition, and it is stored.
abbrev pub Stored :
    Repository → Claim → Bool → SecurityActionState → Option String → String → Type 0
Stored repository claim changed state reference status =
    (t : TransitionResult) × (transition_state claim ≡ ok t)
    × (state ≡ t.state)
    × (changed ≡ t.changed)
    × (stored : StoredStatus) × (repository.mark_succeeded (success_of claim t reference)
        ≡ ok stored)
    × (stored.status ≡ status)

store_success-Stored :
    (repository : Repository) (claim : Claim) (t : TransitionResult) (calls : List ServiceCall)
    (outcome : Result (Option String)) {status : String} {changed : Bool}
    {state : SecurityActionState} {reference : Option String}
    → transition_state claim ≡ ok t
    → (store_success repository claim t calls outcome).1
      ≡ ok (success status changed state reference)
    → Stored repository claim changed state reference status
unfolding store_success
store_success-Stored repository claim t calls (err code) made h = ground arith
store_success-Stored repository claim t calls (ok r) made h =
    let (stored, marked, reported) =
      >>=-eq-ok (repository.mark_succeeded (success_of claim t r)) _ h in
    (t, made, cc, cc, stored, cc, cc)

attempt-Stored :
    (executor : Executor) (repository : Repository) (claim : Claim) {status : String}
    {changed : Bool} {state : SecurityActionState} {reference : Option String}
    → (attempt executor repository claim).1 ≡ ok (success status changed state reference)
    → Stored repository claim changed state reference status
unfolding attempt execute_transition
attempt-Stored executor repository claim h = elim (Result-cases (transition_state claim)) [
  | inl (t, made) ↦ store_success-Stored repository claim t _ _ made (rw made at h)
  | inr (code, refused) ↦ let no = rw refused at h in ground arith
]

settle-success :
    (repository : Repository) (claim : Claim) (calls : List Call) (outcome : Result Report)
    {status : String} {changed : Bool} {state : SecurityActionState} {reference : Option String}
    → (settle repository claim (calls, outcome)).1 ≡ ok (success status changed state reference)
    → outcome ≡ ok (success status changed state reference)
unfolding settle store_failure
settle-success repository claim calls (ok report) h = h
settle-success repository claim calls (err code) h =
    elim (Result-cases (retry_delay claim.attempt_count)) [
      | inl (d, delay) ↦
          let (stored, marked, reported) = >>=-eq-ok (repository.mark_failed _) _ (rw delay at h) in
          ground arith
      | inr (other, bad) ↦ let no = rw bad at h in ground arith
    ]

-- If a run of the worker on a claim reports a success, with any executor, then the reported state
-- and change are those of the transition that the state machine makes, and the repository has
-- stored them with the reported reference and answered with the reported status.
pub run_claimed-Stored :
    (executor : Executor) (repository : Repository) (claim : Claim) {status : String}
    {changed : Bool} {state : SecurityActionState} {reference : Option String}
    → (run_claimed executor repository (ok (some claim))).1
      ≡ ok (success status changed state reference)
    → Stored repository claim changed state reference status
unfolding run_claimed
run_claimed-Stored executor repository claim h =
    let tried = attempt executor repository claim in
    attempt-Stored executor repository claim (settle-success repository claim tried.0 tried.1 h)
