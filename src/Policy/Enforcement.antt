-- ===== src/Policy/Enforcement.antt =====
-- apps/api/src/policy-enforcement.mjs: createPolicyEnforcementService. The lookups, the hash, the schemas,
-- the exchange with the policy engine and the two readings of the monotonic clock are parameters. A
-- lookup that fails is `err`, a clock that throws `none`.
use tenant_trust.Policy.Input.{DecisionArguments, exact_utc, build_input}
use tenant_trust.Access.Context.{is_text}
use tenant_trust.Common.Int.{pos}
use tenant_trust.Common.{
  ℕ, ◌+◌, ◌-◌, ◌*◌, String, List, [], ◌∷◌, Option, none, some, Bool, false, not, ◌&&◌, ltb, all,
  if◌then◌else◌, Result, ok, err, guard, fail_if, with_code, ◌>>=◌, ◌>>◌,
}
use tenant_trust.Js.{Value, string, number, finite, get, is_object, strict_eq, is_null}
use tenant_trust.Policy.Canonical.{Part, canonicalize}
use tenant_trust.Policy.Client.{Schemas, Exchange, request_decision}

pub record Enforcement : Type 0 where
  pub schemas : Schemas
  pub lookup_trust : Value → Result Value
  pub lookup_active : Value → Result Value
  pub exchange : Value → Exchange
  pub sha256 : List Part → String
  pub read_at : Option Value
  pub checked_at : Option Value

pub record EnforcedDecision : Type 0 where
  pub input : Value
  pub input_hash : String
  pub policy_bundle : Value
  pub decision : Value

-- `requireRecord`.
unfoldable pub require_object : Value → String → Result (Unit {0})
require_object value code = guard (is_object value) code

-- `monotonicTime`.
unfoldable pub monotonic_time : Option Value → Result ℕ
monotonic_time (some (number (finite (pos n)))) = ok n
monotonic_time _ = err "POLICY_TIME_UNAVAILABLE"

-- A number of the trust state; the schema of the input admits nothing else there, and the test of the
-- code is false where it is none.
abbrev pub number_or_none : Value → Option ℕ
number_or_none (number (finite (pos n))) = some n
number_or_none _ = none

-- `trust.ageSeconds + elapsedMilliseconds / 1_000 > trust.staleAfterSeconds`.
unfoldable pub is_expired : Value → ℕ → Bool
is_expired trust elapsed = elim (number_or_none (get trust "ageSeconds")) [
  | none ↦ false
  | some age ↦ elim (number_or_none (get trust "staleAfterSeconds")) [
    | none ↦ false
    | some limit ↦ ltb (limit * 1_000) (age * 1_000 + elapsed)
  ]
]

unfoldable pub assert_trust_remains_fresh : Value → ℕ → Option Value → Result (Unit {0})
unfolding is_expired monotonic_time
assert_trust_remains_fresh trust observed_at clock =
    if is_text (get trust "state") "fresh"
    then (monotonic_time clock >>= λ now.
        fail_if (ltb now observed_at) "POLICY_TIME_UNAVAILABLE"
        >> fail_if (is_expired trust (now - observed_at)) "TRUST_STATE_EXPIRED_DURING_DECISION")
    else ok tt

-- The test of the authorization, with the property that the input reads of it.
unfoldable pub check_authorization_context : Value → Value → Result (Unit {0})
check_authorization_context authorization action = do
  guard
      (is_text (get authorization "modeId") "adaptive-trust-opa-v1"
        && is_text (get authorization "outcome") "policy-required"
        && strict_eq (get (get authorization "eligibility") "action") action)
      "POLICY_AUTHORIZATION_CONTEXT_INVALID"

unfoldable pub check_bundle : Value → Value → Result (Unit {0})
check_bundle bundle context =
    require_object bundle "ACTIVE_POLICY_BUNDLE_INVALID"
    >> guard
        (strict_eq (get bundle "tenantId") (get context "tenantId")
          && is_text (get bundle "policyName") "access-control"
          && is_text (get bundle "state") "active"
          && is_text (get bundle "entrypoint") "tenant_trust/authorization/decision")
        "ACTIVE_POLICY_BUNDLE_INVALID"

unfoldable pub check_trust_binding : Value → Value → Result (Unit {0})
check_trust_binding trust context =
    guard
      (strict_eq (get trust "tenantId") (get context "tenantId")
        && strict_eq (get trust "subjectId") (get context "subjectId"))
      "TRUST_STATE_BINDING_MISMATCH"

-- `hashPolicyInput`.
unfoldable pub hash_policy_input : Enforcement → Value → Result String
hash_policy_input enforcement input = do
  guard (enforcement.schemas.validate_input input) "POLICY_INPUT_INVALID"
  parts ← canonicalize input
  ok (enforcement.sha256 parts)

-- The pairs that assertDecisionBinding compares.
abbrev pub bindings : Value → Value → String → Value → List (Value × Value)
bindings decision input input_hash bundle =
    (get decision "requestId", get (get input "requestContext") "requestId")
    ∷ (get decision "correlationId", get (get input "requestContext") "correlationId")
    ∷ (get decision "tenantId", get (get input "tenantContext") "tenantId")
    ∷ (get decision "subjectId", get (get input "tenantContext") "subjectId")
    ∷ (get (get decision "input") "contractId", get input "contractId")
    ∷ (get (get decision "input") "hashSha256", string input_hash)
    ∷ (
      get (get decision "state") "certificateStatusVersion",
      get (get input "identity") "statusVersion",
    )
    ∷ (
      get (get decision "state") "tenantVersion",
      get (get (get input "tenantContext") "versions") "tenant",
    )
    ∷ (
      get (get decision "state") "subjectVersion",
      get (get (get input "tenantContext") "versions") "subject",
    )
    ∷ (
      get (get decision "state") "membershipVersion",
      get (get (get input "tenantContext") "versions") "membership",
    )
    ∷ (get (get decision "state") "trustTransitionId", get (get input "trust") "transitionId")
    ∷ (get (get decision "state") "trustUpdateVersion", get (get input "trust") "updateVersion")
    ∷ (
      get (get decision "state") "trustConfigurationVersion",
      get (get input "trust") "configurationVersion",
    )
    ∷ (get (get decision "policy") "policyVersionId", get bundle "policyVersionId")
    ∷ (get (get decision "policy") "bundleVersion", get bundle "bundleVersion")
    ∷ (get (get decision "policy") "bundleHashSha256", get bundle "bundleHashSha256")
    ∷ (get (get decision "policy") "decisionPath", get bundle "entrypoint")
    ∷ []

unfoldable pub assert_decision_binding : Value → Value → String → Value → Result (Unit {0})
unfolding exact_utc
assert_decision_binding decision input input_hash bundle =
    guard
      (all (λ (p : Value × Value). strict_eq p.0 p.1) (bindings decision input input_hash bundle))
      "POLICY_RESPONSE_BINDING_MISMATCH"
    >> (exact_utc (get decision "evaluatedAt") "POLICY_RESPONSE_INVALID" >>= λ evaluated_at.
        exact_utc (get (get input "requestContext") "requestedAt") "POLICY_RESPONSE_TIME_INVALID"
        >>= λ requested_at. fail_if (ltb evaluated_at requested_at) "POLICY_RESPONSE_TIME_INVALID")

-- The outcome that the trust state requires, if it requires one.
unfoldable pub check_required_outcome : Value → Value → Result (Unit {0})
check_required_outcome trust decision =
    fail_if
      (not (is_null (get trust "requiredOutcome"))
        && not (strict_eq (get decision "outcome") (get trust "requiredOutcome")))
      "POLICY_RESPONSE_CONSTRAINT_MISMATCH"

-- The first tests of `decide`.
unfoldable pub check_arguments : DecisionArguments → Result (Unit {0})
unfolding require_object
check_arguments a = do
  require_object a.authentication "POLICY_INPUT_INVALID"
  require_object a.context "POLICY_INPUT_INVALID"
  require_object a.request_state "POLICY_INPUT_INVALID"
  require_object a.authorization "POLICY_INPUT_INVALID"
  require_object a.policy_request "POLICY_INPUT_INVALID"
  check_authorization_context a.authorization a.action

-- The end of `decide`, from the input.
unfoldable pub enforce_input : Enforcement → Value → ℕ → Value → Value → Result EnforcedDecision
enforce_input enforcement trust trust_read_at bundle input = do
  input_hash ← hash_policy_input enforcement input
  decision ← request_decision enforcement.schemas enforcement.exchange input
  assert_decision_binding decision input input_hash bundle
  check_required_outcome trust decision
  assert_trust_remains_fresh trust trust_read_at enforcement.checked_at
  ok (record {
    input = input;
    input_hash = input_hash;
    policy_bundle = bundle;
    decision = decision;
  })

-- `decide`.
unfoldable pub decide : Enforcement → DecisionArguments → Result EnforcedDecision
decide enforcement a = do
  check_arguments a
  trust ← with_code (enforcement.lookup_trust a.context) "TRUST_LOOKUP_UNAVAILABLE"
  require_object trust "TRUST_STATE_INVALID"
  trust_read_at ← monotonic_time enforcement.read_at
  check_trust_binding trust a.context
  bundle ← with_code (enforcement.lookup_active a.context) "POLICY_BUNDLE_LOOKUP_UNAVAILABLE"
  check_bundle bundle a.context
  input ← build_input a trust
  enforce_input enforcement trust trust_read_at bundle input
