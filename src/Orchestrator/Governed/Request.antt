-- ===== src/Orchestrator/Governed/Request.antt =====
-- services/orchestrator/src/governed-recovery.mjs: who asks for a recovery, the request, the loaded
-- context of the subject, and the row that confirms an authorization.
use tenant_trust.Orchestrator.Execution.{is_external_reference}
use tenant_trust.Certificates.Status.{Moment, date_from}
use tenant_trust.Common.{
  ℕ, String, List, [], ◌∷◌, Option, none, some, Bool, false, ◌&&◌, ◌||◌, includes, length, ◌==◌,
  all, Result, ok, err, guard, fail_if, or_fail, ◌>>=◌, ◌>>◌, with_code,
}
use tenant_trust.Js.{
  Value, array, nil, get, is_falsy, is_object, string, passes_id, keys, is_idempotency_key,
  is_same_text, is_sha256, as_array, passes, is_null,
}
use tenant_trust.Access.Context.{
  TenantContext, Store, ContextArgument, assert_no_tenant_switch, is_text, positive_version,
}

-- REQUEST_KEYS.
abbrev pub request_keys : List String
request_keys =
    "causeResolutionReference" ∷ "idempotencyKey" ∷ "requestId" ∷ "sessionIdHashSha256"
    ∷ "stepUpProofIdHashSha256" ∷ "targetCertificateId" ∷ "targetSubjectId" ∷ []

-- `exactObject(value, keys)`: any object, plain or not.
unfoldable pub exact_object : Value → List String → Bool
exact_object value expected =
    is_object value
    && length (keys value) == length expected
    && all (includes expected) (keys value)

-- `trustedAdminContext`.
unfoldable pub trusted_admin_context : ContextArgument → Store → Result TenantContext
trusted_admin_context argument store = do
  trusted ←
      with_code (assert_no_tenant_switch argument (array nil) store)
        "RECOVERY_TENANT_CONTEXT_INVALID"
  guard (includes trusted.roles "tenant-admin") "RECOVERY_TENANT_ADMIN_REQUIRED"
  ok trusted

-- The tests of `normalizeRequest`: the reference to what resolved the cause may be null. A number or a
-- boolean as the key or the reference is left out (Js.Patterns).
unfoldable pub is_recovery_request : Value → Bool
unfolding exact_object
is_recovery_request request =
    exact_object request request_keys
    && passes_id "req_" (get request "requestId")
    && passes is_idempotency_key (get request "idempotencyKey")
    && passes_id "sub_" (get request "targetSubjectId")
    && passes_id "crt_" (get request "targetCertificateId")
    && passes is_sha256 (get request "stepUpProofIdHashSha256")
    && passes is_sha256 (get request "sessionIdHashSha256")
    && (is_null (get request "causeResolutionReference")
        || passes is_external_reference (get request "causeResolutionReference"))

unfoldable pub normalize_request : Value → Result Value
normalize_request request = do
  guard (is_recovery_request request) "RECOVERY_REQUEST_INVALID"
  ok request

pub record RecoveryTarget : Type 0 where
  pub tenant_id : String
  pub subject_id : Value
  pub certificate_id : Value

-- What `validateLoadedContext` has checked, with the version as a number.
pub record LoadedContext : Type 0 where
  pub trust_transition_id : Value
  pub state_version : ℕ
  pub current_state : Value
  pub checkpoint : Value
  pub active_severe_evidence : Value

unfoldable pub validate_loaded_context : Value → RecoveryTarget → Result LoadedContext
validate_loaded_context value target = do
  fail_if (is_falsy value) "RECOVERY_CONTEXT_INVALID"
  guard
      (is_text (get value "tenantId") target.tenant_id
        && is_same_text (get value "targetSubjectId") target.subject_id
        && is_same_text (get value "targetCertificateId") target.certificate_id
        && passes_id "trn_" (get value "trustTransitionId"))
      "RECOVERY_CONTEXT_INVALID"
  version ← or_fail (positive_version (get value "stateVersion")) "RECOVERY_CONTEXT_INVALID"
  fail_if (is_falsy (get value "currentState")) "RECOVERY_CONTEXT_INVALID"
  fail_if (is_falsy (get value "checkpoint")) "RECOVERY_CONTEXT_INVALID"
  entries ← or_fail (as_array (get value "activeSevereEvidence")) "RECOVERY_CONTEXT_INVALID"
  ok (record {
    trust_transition_id = get value "trustTransitionId";
    state_version = version;
    current_state = get value "currentState";
    checkpoint = get value "checkpoint";
    active_severe_evidence = get value "activeSevereEvidence";
  })

-- A row of the database: its times are dates, or missing.
pub record AuthorizationRow : Type 0 where
  pub columns : Value
  pub authorized_at : Option Moment
  pub expires_at : Option Moment

pub record RecoveryAuthorization : Type 0 where
  pub tenant_id : Value
  pub authorization_id : Value
  pub action_id : Value
  pub action_type : Value
  pub status : Value
  pub authorized_at : ℕ
  pub expires_at : ℕ

-- RECOVERY_ACTIONS.
abbrev pub recovery_actions : List String
recovery_actions = "restore-access" ∷ "issue-replacement-certificate" ∷ []

abbrev pub is_one_of : List String → Value → Bool
is_one_of texts (string s) = includes texts s
is_one_of texts _ = false

-- `iso(value)`: a date of the database, which may be invalid, or a text.
unfoldable pub iso : Moment → Result ℕ
iso moment = date_from moment "RECOVERY_TIME_INVALID"

-- `value ? iso(value) : null`.
unfoldable pub iso_or_null : Option Moment → Result (Option ℕ)
unfolding iso
iso_or_null none = ok none
iso_or_null (some moment) = iso moment >>= λ t. ok (some t)

unfoldable pub map_authorization : AuthorizationRow → Result RecoveryAuthorization
unfolding iso_or_null
map_authorization row = do
  authorized_at ← iso_or_null row.authorized_at
  expires_at ← iso_or_null row.expires_at
  guard
      (passes_id "tnt_" (get row.columns "tenant_id")
        && passes_id "rca_" (get row.columns "authorization_id")
        && passes_id "act_" (get row.columns "action_id")
        && is_one_of recovery_actions (get row.columns "action_type")
        && is_one_of ("pending" ∷ "failed" ∷ "executing" ∷ "succeeded" ∷ [])
            (get row.columns "status"))
      "RECOVERY_AUTHORIZATION_CONFIRMATION_INVALID"
  authorized ← or_fail authorized_at "RECOVERY_AUTHORIZATION_CONFIRMATION_INVALID"
  expires ← or_fail expires_at "RECOVERY_AUTHORIZATION_CONFIRMATION_INVALID"
  ok (record {
    tenant_id = get row.columns "tenant_id";
    authorization_id = get row.columns "authorization_id";
    action_id = get row.columns "action_id";
    action_type = get row.columns "action_type";
    status = get row.columns "status";
    authorized_at = authorized;
    expires_at = expires;
  })

-- The row of a query that must have exactly one.
unfoldable pub confirm_row : List AuthorizationRow → Result RecoveryAuthorization
unfolding map_authorization
confirm_row (row ∷ []) = map_authorization row
confirm_row _ = err "RECOVERY_AUTHORIZATION_CONFIRMATION_INVALID"
