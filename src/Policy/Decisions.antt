-- ===== src/Policy/Decisions.antt =====
-- Runs of apps/api/src/policy-enforcement.mjs: a member reads a record.
use tenant_trust.Policy.Canonical.{
  canonicalize, canonical_items, canonical_fields, insert_member, join,
}
use tenant_trust.Access.Context.{is_text}
use tenant_trust.Common.Int.{pos}
use tenant_trust.Policy.Enforced.{IsEnforced, decide-IsEnforced}
use tenant_trust.Policy.Client.{
  Exchange, answered, no_response, interrupted, read_exchange, read_result, request_decision,
}
use tenant_trust.Common.{◌≡◌, refl, ℕ, String, [], ◌∷◌, some, true, false, ok, err}
use tenant_trust.Js.{
  Value, string, number, array, null, cons, nil, points, finite, is_object, get, strict_eq,
  canonical_utc, is_falsy, field_keys, get_field, keys, parse_utc,
}
use tenant_trust.Policy.Enforcement.{
  EnforcedDecision, decide, Enforcement, check_arguments, check_authorization_context,
  monotonic_time, check_trust_binding, check_bundle, enforce_input, hash_policy_input,
  assert_decision_binding, assert_trust_remains_fresh, check_required_outcome, is_expired,
  require_object,
}
use tenant_trust.Policy.Input.{record_of, DecisionArguments, policy_input, build_input, exact_utc}
use tenant_trust.Access.Tests.{alpha, alice_id}

abbrev seconds : ℕ → Value
seconds n = number (finite (pos (points n)))

abbrev member_context : Value
member_context = record_of (
    ("tenantId", string alpha)
    ∷ ("subjectId", string alice_id)
    ∷ ("roles", array (cons (string "tenant-member") nil))
    ∷ (
      "versions",
      record_of (("tenant", seconds 1) ∷ ("subject", seconds 2) ∷ ("membership", seconds 3) ∷ []),
    )
    ∷ [])

abbrev certificate : Value
certificate = record_of (
    ("issuerId", string "issuer-1")
    ∷ ("serialNumber", string "serial-1")
    ∷ ("fingerprintSha256", string "fingerprint-1")
    ∷ [])

abbrev certificate_state : Value
certificate_state = record_of (
    ("certificateId", string "certificate-1")
    ∷ ("certificateStatusVersion", seconds 5)
    ∷ ("observedAt", string "2026-07-04T09:59:00.000Z")
    ∷ ("checkedAt", string "2026-07-04T09:59:59.000Z")
    ∷ ("validUntil", string "2026-07-05T00:00:00.000Z")
    ∷ [])

abbrev read_eligibility : Value
read_eligibility = record_of (
    ("action", string "record:read")
    ∷ ("resourceType", string "record")
    ∷ ("sensitivity", string "standard")
    ∷ ("scope", string "tenant")
    ∷ [])

abbrev read_request : Value
read_request = record_of (
    ("requestId", string "req_00000000-0000-4000-8000-000000000010")
    ∷ ("correlationId", string "cor_00000000-0000-4000-8000-000000000010")
    ∷ ("requestedAt", string "2026-07-04T10:00:00.000Z")
    ∷ ("resourceIdHashSha256", null)
    ∷ ("method", string "GET")
    ∷ ("routeTemplate", string "/records")
    ∷ ("sourceNetworkZone", string "trusted")
    ∷ [])

abbrev arguments : DecisionArguments
arguments = record {
  authentication =
      record_of (("authenticationId", string "serial-1") ∷ ("certificate", certificate) ∷ []);
  context = member_context;
  request_state = certificate_state;
  authorization = record_of (
      ("modeId", string "adaptive-trust-opa-v1")
      ∷ ("outcome", string "policy-required")
      ∷ ("eligibility", read_eligibility)
      ∷ []);
  action = string "record:read";
  policy_request = read_request;
}

abbrev trust_state : Value
trust_state = record_of (
    ("tenantId", string alpha)
    ∷ ("subjectId", string alice_id)
    ∷ ("state", string "fresh")
    ∷ ("ageSeconds", seconds 100)
    ∷ ("staleAfterSeconds", seconds 300)
    ∷ ("requiredOutcome", null)
    ∷ ("transitionId", string "trn_00000000-0000-4000-8000-000000000013")
    ∷ ("updateVersion", seconds 7)
    ∷ ("configurationVersion", string "1.0.0")
    ∷ [])

abbrev active_bundle : Value
active_bundle = record_of (
    ("tenantId", string alpha)
    ∷ ("policyName", string "access-control")
    ∷ ("state", string "active")
    ∷ ("entrypoint", string "tenant_trust/authorization/decision")
    ∷ ("policyVersionId", string "plv_00000000-0000-4000-8000-000000000020")
    ∷ ("bundleVersion", string "1.2.0")
    ∷ [])

abbrev decision_for : String → Value
decision_for correlation_id = record_of (
    ("requestId", string "req_00000000-0000-4000-8000-000000000010")
    ∷ ("correlationId", string correlation_id)
    ∷ ("tenantId", string alpha)
    ∷ ("subjectId", string alice_id)
    ∷ (
      "input",
      record_of
          (("contractId", string "opa-decision-input-v1") ∷ ("hashSha256", string "hash") ∷ []),
    )
    ∷ (
      "state",
      record_of (
          ("certificateStatusVersion", seconds 5)
          ∷ ("tenantVersion", seconds 1)
          ∷ ("subjectVersion", seconds 2)
          ∷ ("membershipVersion", seconds 3)
          ∷ ("trustTransitionId", string "trn_00000000-0000-4000-8000-000000000013")
          ∷ ("trustUpdateVersion", seconds 7)
          ∷ ("trustConfigurationVersion", string "1.0.0")
          ∷ []),
    )
    ∷ (
      "policy",
      record_of (
          ("policyVersionId", string "plv_00000000-0000-4000-8000-000000000020")
          ∷ ("bundleVersion", string "1.2.0")
          ∷ ("decisionPath", string "tenant_trust/authorization/decision")
          ∷ []),
    )
    ∷ ("outcome", string "ALLOW")
    ∷ ("evaluatedAt", string "2026-07-04T10:00:00.250Z")
    ∷ [])

abbrev enforcement_at : ℕ → Exchange → Enforcement
enforcement_at milliseconds exchange = record {
  schemas = record { validate_input = λ v. is_object v; validate_output = λ v. is_object v };
  lookup_trust = λ context. ok trust_state;
  lookup_active = λ context. ok active_bundle;
  exchange = λ input. exchange;
  sha256 = λ parts. "hash";
  read_at = some (seconds 1_000);
  checked_at = some (seconds milliseconds);
}

abbrev answer : String → Exchange
answer correlation_id = answered (record_of (("result", decision_for correlation_id) ∷ []))

abbrev own_answer : Exchange
own_answer = answer "cor_00000000-0000-4000-8000-000000000010"

abbrev enforced : EnforcedDecision
enforced = record {
  input = policy_input arguments trust_state;
  input_hash = "hash";
  policy_bundle = active_bundle;
  decision = decision_for "cor_00000000-0000-4000-8000-000000000010";
}

own_decision_enforced : decide (enforcement_at 1_250 own_answer) arguments ≡ ok enforced
unfolding decide check_arguments is_object check_authorization_context is_text get strict_eq
    monotonic_time check_trust_binding check_bundle build_input exact_utc canonical_utc
    enforce_input hash_policy_input canonicalize canonical_items canonical_fields is_falsy
    field_keys get_field keys parse_utc insert_member join interrupted read_exchange read_result
    request_decision assert_decision_binding assert_trust_remains_fresh check_required_outcome
    is_expired policy_input require_object
own_decision_enforced = refl

-- The trust was 100 seconds old and may be 300: after 201 more it is stale.
slow_decision_refused :
    decide (enforcement_at 202_000 own_answer) arguments ≡ err "TRUST_STATE_EXPIRED_DURING_DECISION"
unfolding decide check_arguments is_object check_authorization_context is_text get strict_eq
    monotonic_time check_trust_binding check_bundle build_input exact_utc canonical_utc
    enforce_input hash_policy_input canonicalize canonical_items canonical_fields is_falsy
    field_keys get_field keys parse_utc insert_member join interrupted read_exchange read_result
    request_decision assert_decision_binding assert_trust_remains_fresh check_required_outcome
    is_expired policy_input require_object
slow_decision_refused = refl

other_decision_refused :
    decide (enforcement_at 1_250 (answer "cor_00000000-0000-4000-8000-000000000011")) arguments
    ≡ err "POLICY_RESPONSE_BINDING_MISMATCH"
unfolding decide check_arguments is_object check_authorization_context is_text get strict_eq
    monotonic_time check_trust_binding check_bundle build_input exact_utc canonical_utc
    enforce_input hash_policy_input canonicalize canonical_items canonical_fields is_falsy
    field_keys get_field keys parse_utc insert_member join interrupted read_exchange read_result
    request_decision assert_decision_binding assert_trust_remains_fresh check_required_outcome
    is_expired policy_input require_object
other_decision_refused = refl

outage_refused :
    decide
      (enforcement_at 1_250 (no_response (record { cancelled = false; timed_out = true })))
      arguments
    ≡ err "POLICY_REQUEST_TIMEOUT"
unfolding decide check_arguments is_object check_authorization_context is_text get strict_eq
    monotonic_time check_trust_binding check_bundle build_input exact_utc canonical_utc
    enforce_input hash_policy_input canonicalize canonical_items canonical_fields is_falsy
    field_keys get_field keys parse_utc insert_member join interrupted read_exchange read_result
    request_decision assert_decision_binding assert_trust_remains_fresh check_required_outcome
    is_expired policy_input require_object
outage_refused = refl

decide-IsEnforced_example : IsEnforced (enforcement_at 1_250 own_answer) arguments enforced
decide-IsEnforced_example =
    decide-IsEnforced (enforcement_at 1_250 own_answer) arguments enforced own_decision_enforced
