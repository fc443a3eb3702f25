-- ===== src/Policy/Answered.antt =====
-- apps/api/src/policy-enforcement.mjs: what each test of a decision has checked where it returns.
use tenant_trust.Access.Context.{is_text}
use tenant_trust.Policy.Canonical.{Part, canonicalize}
use tenant_trust.Policy.Enforcement.{
  Enforcement, assert_decision_binding, assert_trust_remains_fresh, check_required_outcome,
  hash_policy_input, is_expired, check_authorization_context, bindings, monotonic_time,
  check_arguments, require_object,
}
use tenant_trust.Policy.Input.{exact_utc, DecisionArguments, policy_input, build_input, spread}
use tenant_trust.Policy.Client.{
  read_exchange, read_result, request_decision, Schemas, Exchange, no_response, unreadable,
  answered, not_ok,
}
use tenant_trust.Common.{
  ℕ, String, List, [], ◌∷◌, Option, some, Bool, true, false, refl, inl, inr, ok, all, ◌≤◌, ◌≡◌,
  >>=-eq-ok, All, ◌-◌, both_true, guard, or_fail-eq-ok, ◌⊎◌, guard-eq-ok, not, Bool-cases,
  fail_if-eq-ok, ◌&&◌, fail_if, length, ltb, arith, ◌==◌, includes, subst, or_fail, sym,
}
use tenant_trust.Js.{Value, get, canonical_utc, is_null, strict_eq, is_object, keys, is_nullish}

-- A trust state that has not become stale while the policy engine decided.
abbrev pub StaysFresh : Value → ℕ → ℕ → Type 0
StaysFresh trust read_at checked_at =
    (read_at ≤ checked_at) × (is_expired trust (checked_at - read_at) ≡ false)

read_result-eq-ok :
    (schemas : Schemas) (body decision : Value)
    → read_result schemas body ≡ ok decision
    → (get body "result" ≡ decision) × (schemas.validate_output decision ≡ true)
unfolding read_result
read_result-eq-ok schemas body decision h =
    let (_, _, h1) =
      >>=-eq-ok
        (guard (is_object body && length (keys body) == 1 && includes (keys body) "result") _) _
        h in
    let (_, valid, h2) = >>=-eq-ok (guard (schemas.validate_output (get body "result")) _) _ h1 in
    let same : get body "result" ≡ decision = cc in
    (same, subst (λ v. schemas.validate_output v ≡ true) same (guard-eq-ok _ _ valid))

read_exchange-eq-ok :
    (schemas : Schemas) (x : Exchange) (decision : Value)
    → read_exchange schemas x ≡ ok decision
    → ((body : Value) × (x ≡ answered body) × (get body "result" ≡ decision))
      × (schemas.validate_output decision ≡ true)
unfolding read_exchange
read_exchange-eq-ok schemas (no_response aborted) decision h = cc
read_exchange-eq-ok schemas not_ok decision h = cc
read_exchange-eq-ok schemas (unreadable aborted) decision h = cc
read_exchange-eq-ok schemas (answered body) decision h =
    let (same, valid) = read_result-eq-ok schemas body decision h in ((body, refl, same), valid)

pub request_decision-eq-ok :
    (schemas : Schemas) (exchange : Value → Exchange) (input decision : Value)
    → request_decision schemas exchange input ≡ ok decision
    → (schemas.validate_input input ≡ true)
      × ((body : Value) × (exchange input ≡ answered body) × (get body "result" ≡ decision))
      × (schemas.validate_output decision ≡ true)
unfolding request_decision
request_decision-eq-ok schemas exchange input decision h =
    let (_, valid, h1) = >>=-eq-ok (guard (schemas.validate_input input) _) _ h in
    let (answers, good) = read_exchange-eq-ok schemas (exchange input) decision h1 in
    (guard-eq-ok _ _ valid, answers, good)

pub hash_policy_input-eq-ok :
    (enforcement : Enforcement) (input : Value) (hash : String)
    → hash_policy_input enforcement input ≡ ok hash
    → (parts : List Part) × (canonicalize input ≡ ok parts) × (hash ≡ enforcement.sha256 parts)
unfolding hash_policy_input
hash_policy_input-eq-ok enforcement input hash h =
    let (_, _, h1) = >>=-eq-ok (guard (enforcement.schemas.validate_input input) _) _ h in
    let (parts, canonical, h2) = >>=-eq-ok (canonicalize input) _ h1 in (parts, canonical, cc)

all-All : {A : Type 0} (p : A → Bool) (xs : List A) → all p xs ≡ true → All (λ x. p x ≡ true) xs
all-All p [] h = tt
all-All p (x ∷ xs) h =
    let (first, rest) = both_true (p x) (all p xs) h in (first, all-All p xs rest)

exact_utc-eq-ok :
    (v : Value) (code : String) (t : ℕ) → exact_utc v code ≡ ok t → canonical_utc v ≡ some t
unfolding exact_utc
exact_utc-eq-ok v code t h = or_fail-eq-ok (canonical_utc v) code h

pub assert_decision_binding-eq-ok :
    (decision input : Value) (hash : String) (bundle : Value) {u : Unit {0}}
    → assert_decision_binding decision input hash bundle ≡ ok u
    → All (λ (p : Value × Value). strict_eq p.0 p.1 ≡ true) (bindings decision input hash bundle)
      × ((evaluated_at requested_at : ℕ) × (canonical_utc (get decision "evaluatedAt")
            ≡ some evaluated_at)
          × (canonical_utc (get (get input "requestContext") "requestedAt") ≡ some requested_at)
          × (requested_at ≤ evaluated_at))
unfolding assert_decision_binding
assert_decision_binding-eq-ok decision input hash bundle h =
    let (_, same, h1) =
      >>=-eq-ok
        (guard
          (all (λ (p : Value × Value). strict_eq p.0 p.1) (bindings decision input hash bundle)) _)
        _ h in
    let (e, evaluated, h2) = >>=-eq-ok (exact_utc (get decision "evaluatedAt") _) _ h1 in
    let (r, requested, h3) =
      >>=-eq-ok (exact_utc (get (get input "requestContext") "requestedAt") _) _ h2 in
    let late = fail_if-eq-ok (ltb e r) _ h3 in
    (
      all-All (λ (p : Value × Value). strict_eq p.0 p.1) (bindings decision input hash bundle)
          (guard-eq-ok _ _ same),
      (
        e,
        r,
        exact_utc-eq-ok _ _ e evaluated,
        exact_utc-eq-ok _ _ r requested,
        ground (arith, late),
      ),
    )

pub check_required_outcome-eq-ok :
    (trust decision : Value) {u : Unit {0}}
    → check_required_outcome trust decision ≡ ok u
    → (is_null (get trust "requiredOutcome") ≡ true)
      ⊎ (strict_eq (get decision "outcome") (get trust "requiredOutcome") ≡ true)
unfolding check_required_outcome
check_required_outcome-eq-ok trust decision h =
    either (is_null (get trust "requiredOutcome"))
      (strict_eq (get decision "outcome") (get trust "requiredOutcome")) (fail_if-eq-ok _ _ h)
  where
    either : (b c : Bool) → (not b && not c) ≡ false → (b ≡ true) ⊎ (c ≡ true)
    either true c k = inl refl
    either false true k = inr refl
    either false false k = cc

pub assert_trust_remains_fresh-eq-ok :
    (trust : Value) (read_at : ℕ) (clock : Option Value) {u : Unit {0}}
    → assert_trust_remains_fresh trust read_at clock ≡ ok u
    → (is_text (get trust "state") "fresh" ≡ false)
      ⊎ ((now : ℕ) × (monotonic_time clock ≡ ok now) × StaysFresh trust read_at now)
unfolding assert_trust_remains_fresh
assert_trust_remains_fresh-eq-ok trust read_at clock h =
    elim (Bool-cases (is_text (get trust "state") "fresh")) [
      | inr n ↦ inl n
      | inl y ↦
          let fresh = rw y at h in
          let (now, reads, h1) = >>=-eq-ok (monotonic_time clock) _ fresh in
          let (_, forward, h2) = >>=-eq-ok (fail_if (ltb now read_at) _) _ h1 in
          inr (
            now,
            reads,
            (
              ground (arith, fail_if-eq-ok (ltb now read_at) _ forward),
              fail_if-eq-ok (is_expired trust (now - read_at)) _ h2,
            ),
          )
    ]

pub check_arguments-eq-ok :
    (a : DecisionArguments) {u : Unit {0}}
    → check_arguments a ≡ ok u
    → check_authorization_context a.authorization a.action ≡ ok u
unfolding check_arguments
check_arguments-eq-ok a h =
    let (_, _, h1) = >>=-eq-ok (require_object a.authentication _) _ h in
    let (_, _, h2) = >>=-eq-ok (require_object a.context _) _ h1 in
    let (_, _, h3) = >>=-eq-ok (require_object a.request_state _) _ h2 in
    let (_, _, h4) = >>=-eq-ok (require_object a.authorization _) _ h3 in
    let (_, _, h5) = >>=-eq-ok (require_object a.policy_request _) _ h4 in h5

pub build_input-eq-ok :
    (a : DecisionArguments) (trust input : Value)
    → build_input a trust ≡ ok input
    → input ≡ policy_input a trust
unfolding build_input
build_input-eq-ok a trust input h =
    let (_, _, h1) = >>=-eq-ok (or_fail (spread (get a.context "roles")) _) _ h in
    let (_, _, h2) = >>=-eq-ok (fail_if (is_nullish (get a.authorization "eligibility")) _) _ h1 in
    let (_, _, h3) = >>=-eq-ok (exact_utc (get a.policy_request "requestedAt") _) _ h2 in
    sym (made h3)
  where
    made : {v : Value} → ok v ≡ ok input → v ≡ input
    made k = cc
