-- ===== src/Orchestrator/Governed/Tests.antt =====
-- Runs of services/orchestrator/src/governed-recovery.mjs: an administrator restores the access of a
-- restricted member.
use tenant_trust.Orchestrator.State.{define_security_action_state, check_security_action_state}
use tenant_trust.Orchestrator.Evidence.{normalize_target, normalize_severe_evidence}
use tenant_trust.Orchestrator.Recovery.{
  evaluate_security_action_recovery, normalize_recovery_checkpoint, is_checkpoint, decide_recovery,
}
use tenant_trust.Common.Int.{pos}
use tenant_trust.Certificates.Status.{date, date_from}
use tenant_trust.Orchestrator.Governed.Service.{
  Environment, GovernedAuthorization, authorize, evaluate_request, evaluation_input,
  authorization_request, check_authorization,
}
use tenant_trust.Orchestrator.Governed.Request.{
  AuthorizationRow, trusted_admin_context, normalize_request, is_recovery_request,
  validate_loaded_context, confirm_row,
}
use tenant_trust.Orchestrator.Governed.Guarantees.{IsGoverned, authorize-IsGoverned}
use tenant_trust.Access.Context.{
  Store, TenantContext, reference, assert_no_tenant_switch, check_claims, is_text,
}
use tenant_trust.Common.{◌≡◌, refl, String, [], ◌∷◌, some, ok, err, true, false, sort}
use tenant_trust.Js.{
  Value, object, string, number, array, null, field, end, nil, cons, points, finite, is_object,
  keys, passes_id, get, is_idempotency_key, is_sha256, is_falsy, is_same_text, safe_integer,
  has_exact_keys, member, valid_score, canonical_utc, matches_id,
}
use tenant_trust.Access.Tests.{alpha, alice_id, alice}

abbrev admin : TenantContext
admin = record alice { roles = "tenant-admin" ∷ [] }

abbrev admin_store : Store
admin_store = record { next = 2; resolved = (1, admin) ∷ (0, alice) ∷ [] }

abbrev session_hash : String
session_hash = "0123456789abcdef0123456789abcdef0123456789abcdef0123456789abcdef"

abbrev certificate_id : String
certificate_id = "crt_00000000-0000-4000-8000-000000000004"

abbrev recovery_request : Value
recovery_request = object true (
    field "requestId" (string "req_00000000-0000-4000-8000-000000000010") (
      field "idempotencyKey" (string "recovery-2026-07-04") (
        field "targetSubjectId" (string alice_id) (
          field "targetCertificateId" (string certificate_id) (
            field "stepUpProofIdHashSha256" (string session_hash) (
              field "sessionIdHashSha256" (string session_hash)
                (field "causeResolutionReference" null end)))))))

abbrev restricted_state : Value
restricted_state = object true (
    field "access" (string "restricted") (
      field "renewal" (string "allowed") (
        field "targetCertificate" (string "active")
          (field "replacement" (string "not-required") end))))

abbrev recovered_checkpoint : Value
recovered_checkpoint = object true (
    field "score" (number (finite (pos (points 60)))) (
      field "band" (string "medium") (
        field "transition" (string "recovered") (
          field "consecutiveQualifyingEvaluations" (number (finite (pos (points 2)))) (
            field "sourceIds"
              (array (
                cons (string "src_00000000-0000-4000-8000-000000000011")
                  (cons (string "src_00000000-0000-4000-8000-000000000012") nil)))
              end)))))

abbrev recovery_context : Value
recovery_context = object true (
    field "tenantId" (string alpha) (
      field "targetSubjectId" (string alice_id) (
        field "targetCertificateId" (string certificate_id) (
          field "trustTransitionId" (string "trn_00000000-0000-4000-8000-000000000013") (
            field "stateVersion" (number (finite (pos (points 4)))) (
              field "currentState" restricted_state (
                field "checkpoint" recovered_checkpoint
                  (field "activeSevereEvidence" (array nil) end))))))))

abbrev authorization_row : AuthorizationRow
authorization_row = record {
  columns = object true (
      field "tenant_id" (string alpha) (
        field "authorization_id" (string "rca_00000000-0000-4000-8000-000000000014") (
          field "action_id" (string "act_00000000-0000-4000-8000-000000000014") (
            field "action_type" (string "restore-access")
              (field "status" (string "pending") end)))));
  authorized_at = some (date (some 1_000));
  expires_at = some (date (some 301_000));
}

abbrev environment_with : Value → Environment
environment_with context = record {
  repository = record {
    load_recovery_context = λ target at. ok context;
    query_authorization = λ sent. ok (authorization_row ∷ []);
  };
  id_factory = λ n. "00000000-0000-4000-8000-000000000014";
  clock = some "2026-07-04T10:00:00.000Z";
  sha256 = λ document. session_hash;
}

abbrev granted : GovernedAuthorization
granted = record {
  authorization = record {
    tenant_id = string alpha;
    authorization_id = string "rca_00000000-0000-4000-8000-000000000014";
    action_id = string "act_00000000-0000-4000-8000-000000000014";
    action_type = string "restore-access";
    status = string "pending";
    authorized_at = 1_000;
    expires_at = 301_000;
  };
  reason_code = "ACCESS_RECOVERY_ELIGIBLE";
  target_certificate_reactivated = false;
}

recovery_granted :
    authorize (environment_with recovery_context) (reference 1) recovery_request admin_store
    ≡ ok granted
unfolding authorize trusted_admin_context assert_no_tenant_switch check_claims normalize_request
    is_recovery_request is_object keys passes_id get is_idempotency_key is_sha256
    validate_loaded_context is_falsy is_text is_same_text safe_integer evaluate_request
    evaluation_input evaluate_security_action_recovery has_exact_keys normalize_target
    define_security_action_state check_security_action_state member normalize_recovery_checkpoint
    valid_score is_checkpoint normalize_severe_evidence canonical_utc decide_recovery
    authorization_request confirm_row date_from check_authorization matches_id sort
recovery_granted = refl

member_refused :
    authorize (environment_with recovery_context) (reference 0) recovery_request admin_store
    ≡ err "RECOVERY_TENANT_ADMIN_REQUIRED"
unfolding authorize trusted_admin_context assert_no_tenant_switch check_claims
member_refused = refl

unknown_context_refused :
    authorize (environment_with null) (reference 1) recovery_request admin_store
    ≡ err "RECOVERY_CONTEXT_INVALID"
unfolding authorize trusted_admin_context assert_no_tenant_switch check_claims normalize_request
    is_recovery_request is_object keys passes_id get is_idempotency_key is_sha256
    validate_loaded_context is_falsy
unknown_context_refused = refl

authorize-IsGoverned_example :
    IsGoverned
      (environment_with recovery_context)
      (reference 1)
      recovery_request
      admin_store
      granted
authorize-IsGoverned_example =
    authorize-IsGoverned (environment_with recovery_context) (reference 1) recovery_request
      admin_store granted recovery_granted
