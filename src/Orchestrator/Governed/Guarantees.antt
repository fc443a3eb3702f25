-- ===== src/Orchestrator/Governed/Guarantees.antt =====
-- services/orchestrator/src/governed-recovery.mjs: what an authorization that the service returns rests
-- on.
use tenant_trust.Orchestrator.Governed.Steps.{
  normalize_request-same, trusted_admin_context-eq-ok, evaluate_request-IsTrusted,
  authorization_request-eq-ok, confirm_row-eq-ok, check_authorization-eq-ok,
}
use tenant_trust.Orchestrator.Eligibility.{IsTrusted}
use tenant_trust.Orchestrator.Actions.{ActionType, transition}
use tenant_trust.Orchestrator.Recovery.{Checkpoint, normalize_recovery_checkpoint, RecoveryDecision}
use tenant_trust.Orchestrator.State.{SecurityActionState, define_security_action_state, active}
use tenant_trust.Orchestrator.Governed.Request.{
  LoadedContext, AuthorizationRow, normalize_request, validate_loaded_context,
  trusted_admin_context, map_authorization, confirm_row, RecoveryAuthorization,
}
use tenant_trust.Access.Context.{ContextArgument, Store, TenantContext, trusted_context, is_text}
use tenant_trust.Orchestrator.Governed.Service.{
  Environment, GovernedAuthorization, AuthorizationRequest, target_of, evaluate_request,
  action_name, authorization_request, authorize, check_authorization,
}
use tenant_trust.Common.{
  String, List, [], ◌∷◌, some, true, false, ok, err, ◌≡◌, includes, ◌⊎◌, ◌≢◌, >>=-eq-ok, sym, ap,
  or_fail, subst, ◌∙◌,
}
use tenant_trust.Js.{Value, get, is_null, as_array}

-- An authorization that is returned.
pub record IsGoverned (environment : Environment) (argument : ContextArgument) (request : Value)
    (store : Store) (g : GovernedAuthorization) : Type 0 where
  pub actor : TenantContext
  pub evaluated_at : String
  pub loaded_value : Value
  pub loaded : LoadedContext
  pub state : SecurityActionState
  pub checkpoint : Checkpoint
  pub action_type : ActionType
  pub sent : AuthorizationRequest
  pub row : AuthorizationRow
  pub trusted : trusted_context argument store ≡ ok actor
  pub is_admin : includes actor.roles "tenant-admin" ≡ true
  pub is_request : normalize_request request ≡ ok request
  pub fetched :
      environment.repository.load_recovery_context (target_of actor request) evaluated_at
      ≡ ok loaded_value
  pub is_loaded : validate_loaded_context loaded_value (target_of actor request) ≡ ok loaded
  pub reads_state : define_security_action_state loaded.current_state ≡ ok state
  pub reads_checkpoint : normalize_recovery_checkpoint loaded.checkpoint ≡ ok checkpoint
  pub has_trust : IsTrusted state checkpoint
  pub no_evidence : as_array loaded.active_severe_evidence ≡ some []
  pub cause_resolved :
      (state.target_certificate ≡ active)
      ⊎ (is_null (get request "causeResolutionReference") ≡ false)
  pub not_refused : (code : String) → transition state action_type ≢ err code
  pub sent_action : sent.action_type ≡ action_type
  pub sent_target : sent.target ≡ target_of actor request
  pub sent_version : sent.expected_state_version ≡ loaded.state_version
  pub confirmed : environment.repository.query_authorization sent ≡ ok (row ∷ [])
  pub mapped : map_authorization row ≡ ok g.authorization
  pub same_tenant : is_text g.authorization.tenant_id actor.tenant_id ≡ true
  pub same_action : is_text g.authorization.action_type (action_name action_type) ≡ true
  pub not_reactivated : g.target_certificate_reactivated ≡ false

governed :
    (environment : Environment) (argument : ContextArgument) (request : Value) (store : Store)
    (g : GovernedAuthorization) (actor : TenantContext) (at : String) (value : Value)
    (loaded : LoadedContext) (d : RecoveryDecision) (a : ActionType) (sent : AuthorizationRequest)
    (rows : List AuthorizationRow) (confirmation : RecoveryAuthorization)
    → trusted_admin_context argument store ≡ ok actor
    → normalize_request request ≡ ok request
    → environment.repository.load_recovery_context (target_of actor request) at ≡ ok value
    → validate_loaded_context value (target_of actor request) ≡ ok loaded
    → evaluate_request (target_of actor request) loaded request at ≡ ok (d, a)
    → authorization_request environment (target_of actor request) loaded d a request at ≡ ok sent
    → environment.repository.query_authorization sent ≡ ok rows
    → confirm_row rows ≡ ok confirmation
    → check_authorization actor d a confirmation ≡ ok g
    → IsGoverned environment argument request store g
governed environment argument request store g actor at value loaded d a sent rows confirmation
      is_actor is_request fetched is_loaded evaluated is_sent queried confirmed checked =
    let (trusted, admin) = trusted_admin_context-eq-ok argument store actor is_actor in
    let (s, c, reads_state, reads_checkpoint, trust, empty, cause, made) =
      evaluate_request-IsTrusted (target_of actor request) loaded request at d a evaluated in
    let (sent_action, sent_target, sent_version) =
      authorization_request-eq-ok environment (target_of actor request) loaded d a request at sent
        is_sent in
    let (row, one_row, mapped) = confirm_row-eq-ok rows confirmation confirmed in
    let (same_confirmation, tenant, named, dead) =
      check_authorization-eq-ok actor d a confirmation g checked in
    record {
      actor = actor;
      evaluated_at = at;
      loaded_value = value;
      loaded = loaded;
      state = s;
      checkpoint = c;
      action_type = a;
      sent = sent;
      row = row;
      trusted = trusted;
      is_admin = admin;
      is_request = is_request;
      fetched = fetched;
      is_loaded = is_loaded;
      reads_state = reads_state;
      reads_checkpoint = reads_checkpoint;
      has_trust = trust;
      no_evidence = empty;
      cause_resolved = cause;
      not_refused = made;
      sent_action = sent_action;
      sent_target = sent_target;
      sent_version = sent_version;
      confirmed = queried ∙ ap ok one_row;
      mapped = mapped ∙ ap ok same_confirmation;
      same_tenant = tenant;
      same_action = named;
      not_reactivated = dead;
    }

-- If a governed recovery returns an authorization, then the actor is a resolved administrator of
-- the tenant and the request is well formed; on the context that the database has loaded for that
-- target, the trust is back for its state, no severe evidence is active, the certificate is active
-- or the request names what resolved the cause, and the state machine refuses the action with no
-- code; the action sent is that one, for that target and state version, and the one row that the
-- database confirms is of that tenant and action.
pub authorize-IsGoverned :
    (environment : Environment) (argument : ContextArgument) (request : Value) (store : Store)
    (g : GovernedAuthorization)
    → authorize environment argument request store ≡ ok g
    → IsGoverned environment argument request store g
unfolding authorize
authorize-IsGoverned environment argument request store g h =
    let (actor, is_actor, h1) = >>=-eq-ok (trusted_admin_context argument store) _ h in
    let (normalized, is_request, h2) = >>=-eq-ok (normalize_request request) _ h1 in
    let (at, clock, h3) = >>=-eq-ok (or_fail environment.clock _) _ h2 in
    let target = target_of actor normalized in
    let (value, fetched, h4) =
      >>=-eq-ok (environment.repository.load_recovery_context target at) _ h3 in
    let (loaded, is_loaded, h5) = >>=-eq-ok (validate_loaded_context value target) _ h4 in
    let (p, evaluated, h6) = >>=-eq-ok (evaluate_request target loaded normalized at) _ h5 in
    let (sent, is_sent, h7) =
      >>=-eq-ok (authorization_request environment target loaded p.0 p.1 normalized at) _ h6 in
    let (rows, queried, h8) = >>=-eq-ok (environment.repository.query_authorization sent) _ h7 in
    let (confirmation, confirmed, h9) = >>=-eq-ok (confirm_row rows) _ h8 in
    let same = normalize_request-same request normalized is_request in
    subst (λ r. IsGoverned environment argument r store g) (sym same)
      (governed environment argument normalized store g actor at value loaded p.0 p.1 sent rows
        confirmation is_actor (subst (λ r. normalize_request r ≡ ok normalized) same is_request)
        fetched is_loaded evaluated is_sent queried confirmed h9)
