-- ===== src/Orchestrator/Governed/Service.antt =====
-- services/orchestrator/src/governed-recovery.mjs: createGovernedRecoveryService, with
-- evaluateSecurityActionRecovery as index.mjs passes it. The database, the hash, the identifiers and
-- the clock are parameters; the clock gives the text of an instant, or no valid date.
use tenant_trust.Orchestrator.Governed.Request.{
  RecoveryAuthorization, RecoveryTarget, AuthorizationRow, LoadedContext, trusted_admin_context,
  normalize_request, validate_loaded_context, confirm_row,
}
use tenant_trust.Orchestrator.Actions.{
  ActionType, restrict_access, suspend_subject, block_renewal, revoke_certificate, restore_access,
  issue_replacement_certificate,
}
use tenant_trust.Access.Context.{ContextArgument, TenantContext, Store, is_text}
use tenant_trust.Common.{
  ℕ, String, List, [], ◌∷◌, Option, none, some, Bool, true, false, not, ◌&&◌, Result, ok, err,
  guard, fail_if, or_fail, ◌>>=◌, ◌>>◌, sort,
}
use Prim.Native.String.{◌++◌}
use tenant_trust.Js.{
  Value, string, boolean, object, field, end, get, as_array, as_text, matches_id, is_null,
}
use tenant_trust.Orchestrator.Recovery.{
  RecoveryDecision, Checkpoint, evaluate_security_action_recovery,
}

-- The document that `eligibilityHash` prints and hashes; its texts are those of the records.
pub record EligibilityDocument : Type 0 where
  pub target : RecoveryTarget
  pub context : LoadedContext
  pub checkpoint : Checkpoint
  pub active_severe_evidence_ids : List String
  pub action_type : ActionType
  pub reason_code : String
  pub cause_resolution_reference : Value

-- The argument of `authorizeRecoveryAction`.
pub record AuthorizationRequest : Type 0 where
  pub authorization_id : String
  pub action_id : String
  pub decision_id : String
  pub correlation_id : String
  pub request : Value
  pub target : RecoveryTarget
  pub action_type : ActionType
  pub trust_transition_id : Value
  pub expected_state_version : ℕ
  pub reason_code : String
  pub eligibility_hash_sha256 : String
  pub authorized_at : String

pub record RecoveryRepository : Type 0 where
  pub load_recovery_context : RecoveryTarget → String → Result Value
  pub query_authorization : AuthorizationRequest → Result (List AuthorizationRow)

pub record Environment : Type 0 where
  pub repository : RecoveryRepository
  pub id_factory : ℕ → String
  pub clock : Option String
  pub sha256 : EligibilityDocument → String

pub record GovernedAuthorization : Type 0 where
  pub authorization : RecoveryAuthorization
  pub reason_code : String
  pub target_certificate_reactivated : Bool

-- `generated(prefix, pattern, idFactory)`.
unfoldable pub generated : String → String → Result String
generated prefix id = do
  guard (matches_id prefix (prefix ++ id)) "RECOVERY_GENERATED_ID_INVALID"
  ok (prefix ++ id)

abbrev pub target_of : TenantContext → Value → RecoveryTarget
target_of actor request = record {
  tenant_id = actor.tenant_id;
  subject_id = get request "targetSubjectId";
  certificate_id = get request "targetCertificateId";
}

-- The argument of `evaluateRecovery`.
unfoldable pub evaluation_input : RecoveryTarget → LoadedContext → String → Bool → Value
evaluation_input target loaded evaluated_at severe_cause_resolved = object true (
    field "target"
      (object true
        (field "tenantId" (string target.tenant_id) (field "subjectId" target.subject_id end)))
      (field "currentState" loaded.current_state (
        field "checkpoint" loaded.checkpoint (
          field "activeSevereEvidence" loaded.active_severe_evidence (
            field "evaluatedAt" (string evaluated_at)
              (field "severeCauseResolved" (boolean severe_cause_resolved) end))))))

-- The identifiers of evidence that the evaluation has checked, sorted.
abbrev evidence_ids : List Value → List String
evidence_ids [] = []
evidence_ids (v ∷ vs) = elim (as_text (get v "evidenceId")) [
  | none ↦ evidence_ids vs
  | some id ↦ id ∷ evidence_ids vs
]

abbrev elements_of : Value → List Value
elements_of v = elim (as_array v) [ none ↦ [] | some vs ↦ vs ]

abbrev pub eligibility_document :
    RecoveryTarget → LoadedContext → RecoveryDecision → ActionType → Value → EligibilityDocument
eligibility_document target loaded evaluation action_type reference = record {
  target = target;
  context = loaded;
  checkpoint = evaluation.checkpoint;
  active_severe_evidence_ids = sort (evidence_ids (elements_of loaded.active_severe_evidence));
  action_type = action_type;
  reason_code = evaluation.reason_code;
  cause_resolution_reference = reference;
}

-- `RECOVERY_ACTIONS.has(value)`, with the action.
abbrev pub recovery_action : Option ActionType → Option ActionType
recovery_action (some restore_access) = some restore_access
recovery_action (some issue_replacement_certificate) = some issue_replacement_certificate
recovery_action _ = none

-- The eligible action of an evaluation: one of RECOVERY_ACTIONS.
unfoldable pub eligible_action : RecoveryDecision → Result ActionType
eligible_action evaluation = elim evaluation.eligible [
  | false ↦ err evaluation.reason_code
  | true ↦ or_fail (recovery_action evaluation.next_action_type) evaluation.reason_code
]

-- The argument of the repository, with four new identifiers.
unfoldable pub authorization_request :
    Environment
    → RecoveryTarget
    → LoadedContext
    → RecoveryDecision
    → ActionType
    → Value
    → String
    → Result AuthorizationRequest
unfolding generated
authorization_request environment target loaded evaluation action_type request evaluated_at = do
  authorization_id ← generated "rca_" (environment.id_factory 0)
  action_id ← generated "act_" (environment.id_factory 1)
  decision_id ← generated "dec_" (environment.id_factory 2)
  correlation_id ← generated "cor_" (environment.id_factory 3)
  ok (record {
    authorization_id = authorization_id;
    action_id = action_id;
    decision_id = decision_id;
    correlation_id = correlation_id;
    request = request;
    target = target;
    action_type = action_type;
    trust_transition_id = loaded.trust_transition_id;
    expected_state_version = loaded.state_version;
    reason_code = evaluation.reason_code;
    eligibility_hash_sha256 = environment.sha256 (
        eligibility_document target loaded evaluation action_type
          (get request "causeResolutionReference"));
    authorized_at = evaluated_at;
  })

-- The text of an action type.
abbrev pub action_name : ActionType → String
action_name restrict_access = "restrict-access"
action_name suspend_subject = "suspend-subject"
action_name block_renewal = "block-renewal"
action_name revoke_certificate = "revoke-certificate"
action_name restore_access = "restore-access"
action_name issue_replacement_certificate = "issue-replacement-certificate"

-- The evaluation of the loaded context, with the action that it makes eligible.
unfoldable pub evaluate_request :
    RecoveryTarget → LoadedContext → Value → String → Result (RecoveryDecision × ActionType)
unfolding eligible_action
evaluate_request target loaded request evaluated_at = do
  let resolved = not (is_null (get request "causeResolutionReference"))
  (_, evaluation) ←
      evaluate_security_action_recovery (evaluation_input target loaded evaluated_at resolved)
  action_type ← eligible_action evaluation
  fail_if (is_text (get loaded.current_state "targetCertificate") "revoked" && not resolved)
      "SEVERE_CAUSE_UNRESOLVED"
  ok (evaluation, action_type)

-- What the database must have confirmed.
unfoldable pub check_authorization :
    TenantContext
    → RecoveryDecision
    → ActionType
    → RecoveryAuthorization
    → Result GovernedAuthorization
check_authorization actor evaluation action_type authorization = do
  guard
      (is_text authorization.tenant_id actor.tenant_id
        && is_text authorization.action_type (action_name action_type))
      "RECOVERY_AUTHORIZATION_CONFIRMATION_INVALID"
  ok (record {
    authorization = authorization;
    reason_code = evaluation.reason_code;
    target_certificate_reactivated = false;
  })

-- `authorize`.
unfoldable pub authorize :
    Environment → ContextArgument → Value → Store → Result GovernedAuthorization
authorize environment argument request store = do
  actor ← trusted_admin_context argument store
  normalized ← normalize_request request
  evaluated_at ← or_fail environment.clock "RECOVERY_TIME_INVALID"
  let target = target_of actor normalized
  value ← environment.repository.load_recovery_context target evaluated_at
  loaded ← validate_loaded_context value target
  (evaluation, action_type) ← evaluate_request target loaded normalized evaluated_at
  sent ←
      authorization_request environment target loaded evaluation action_type normalized evaluated_at
  rows ← environment.repository.query_authorization sent
  authorization ← confirm_row rows
  check_authorization actor evaluation action_type authorization
