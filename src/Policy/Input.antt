-- ===== src/Policy/Input.antt =====
-- apps/api/src/policy-enforcement.mjs: the input that a decision is asked for.
use tenant_trust.Common.{
  ℕ, String, List, [], ◌∷◌, true, if◌then◌else◌, Result, ok, fail_if, or_fail, ◌>>=◌, ◌>>◌, Option,
  some, none,
}
use tenant_trust.Js.{
  Value, null, boolean, string, object, field, end, get, is_nullish, is_falsy, canonical_utc,
  Fields, Items, array, nil, cons,
}

-- The arguments of `decide`.
pub record DecisionArguments : Type 0 where
  pub authentication : Value
  pub context : Value
  pub request_state : Value
  pub authorization : Value
  pub action : Value
  pub policy_request : Value

-- `exactUtc`.
unfoldable pub exact_utc : Value → String → Result ℕ
exact_utc value code = or_fail (canonical_utc value) code

-- An object from its properties in their order.
abbrev pub fields_of : List (String × Value) → Fields
fields_of [] = end
fields_of ((k, v) ∷ rest) = field k v (fields_of rest)

abbrev pub record_of : List (String × Value) → Value
record_of properties = object true (fields_of properties)

-- `absentStepUp()`.
abbrev absent_step_up : Value
absent_step_up = record_of (
    ("status", string "absent")
    ∷ ("proofIdHashSha256", null)
    ∷ ("tenantId", null)
    ∷ ("subjectId", null)
    ∷ ("action", null)
    ∷ ("sessionIdHashSha256", null)
    ∷ ("verifiedAt", null)
    ∷ ("expiresAt", null)
    ∷ [])

-- `value ?? null`, and a copy of an object: the spread of versions that are a text or an array, whose
-- elements the code would copy, is left out.
abbrev or_null : Value → Value
or_null v = if is_nullish v then null else v

abbrev copy_of : Value → Value
copy_of (object _ fs) = object true fs
copy_of _ = object true end

-- `[...context.roles]`: the elements of an array, or the characters of a text.
abbrev pub characters : String → Items
characters String.[] = nil
characters (String.◌∷◌ c s) = cons (string (String.◌∷◌ c String.[])) (characters s)

abbrev pub spread : Value → Option Value
spread (array xs) = some (array xs)
spread (string s) = some (array (characters s))
spread _ = none

abbrev pub spread_roles : Value → Value
spread_roles roles = elim (spread roles) [ none ↦ roles | some copied ↦ copied ]

abbrev pub identity_input : DecisionArguments → Value
identity_input a = record_of (
    ("source", string "mtls-certificate")
    ∷ ("authenticationId", get a.authentication "authenticationId")
    ∷ ("tenantId", get a.context "tenantId")
    ∷ ("subjectId", get a.context "subjectId")
    ∷ ("certificateId", get a.request_state "certificateId")
    ∷ ("issuerId", get (get a.authentication "certificate") "issuerId")
    ∷ ("serialNumber", get (get a.authentication "certificate") "serialNumber")
    ∷ ("fingerprintSha256", get (get a.authentication "certificate") "fingerprintSha256")
    ∷ ("valid", boolean true)
    ∷ ("certificateState", string "active")
    ∷ ("statusSource", string "authoritative")
    ∷ ("statusVersion", get a.request_state "certificateStatusVersion")
    ∷ ("statusObservedAt", get a.request_state "observedAt")
    ∷ ("checkedAt", get a.request_state "checkedAt")
    ∷ ("validUntil", get a.request_state "validUntil")
    ∷ [])

abbrev pub tenant_input : DecisionArguments → Value
tenant_input a = record_of (
    ("tenantId", get a.context "tenantId")
    ∷ ("subjectId", get a.context "subjectId")
    ∷ ("roles", spread_roles (get a.context "roles"))
    ∷ ("tenantState", string "active")
    ∷ ("subjectState", string "active")
    ∷ ("membershipState", string "active")
    ∷ ("versions", copy_of (get a.context "versions"))
    ∷ [])

abbrev pub resource_input : DecisionArguments → Value
resource_input a = record_of (
    ("tenantId", get a.context "tenantId")
    ∷ ("resourceType", get (get a.authorization "eligibility") "resourceType")
    ∷ ("resourceIdHashSha256", get a.policy_request "resourceIdHashSha256")
    ∷ ("sensitivity", get (get a.authorization "eligibility") "sensitivity")
    ∷ ("scope", get (get a.authorization "eligibility") "scope")
    ∷ ("ownerSubjectId", or_null (get a.policy_request "ownerSubjectId"))
    ∷ [])

abbrev pub request_input : DecisionArguments → Value
request_input a = record_of (
    ("requestId", get a.policy_request "requestId")
    ∷ ("correlationId", get a.policy_request "correlationId")
    ∷ ("requestedAt", get a.policy_request "requestedAt")
    ∷ ("method", get a.policy_request "method")
    ∷ ("routeTemplate", get a.policy_request "routeTemplate")
    ∷ ("sourceNetworkZone", get a.policy_request "sourceNetworkZone")
    ∷ (
      "stepUp",
      (if is_falsy (get a.policy_request "stepUp")
          then absent_step_up
          else get a.policy_request "stepUp"),
    )
    ∷ [])

-- The input of the policy engine.
unfoldable pub policy_input : DecisionArguments → Value → Value
policy_input a trust = record_of (
    ("schemaVersion", string "1.0.0")
    ∷ ("contractId", string "opa-decision-input-v1")
    ∷ ("identity", identity_input a)
    ∷ ("tenantContext", tenant_input a)
    ∷ ("action", a.action)
    ∷ ("resource", resource_input a)
    ∷ ("trust", trust)
    ∷ ("requestContext", request_input a)
    ∷ [])

-- What the spreads and the accesses of the input throw on: roles that are neither an array nor a
-- text, and no eligibility.
unfoldable pub build_input : DecisionArguments → Value → Result Value
unfolding policy_input
build_input a trust = do
  roles ← or_fail (spread (get a.context "roles")) "TypeError"
  fail_if (is_nullish (get a.authorization "eligibility")) "TypeError"
  requested_at ← exact_utc (get a.policy_request "requestedAt") "POLICY_INPUT_INVALID"
  ok (policy_input a trust)
