-- ===== src/Orchestrator/Governed/Steps.antt =====
-- services/orchestrator/src/governed-recovery.mjs: what each step of the service has checked where it
-- returns.
use tenant_trust.Access.Claims.{assert_no_tenant_switch-none}
use tenant_trust.Orchestrator.Governed.Evaluated.{
  Evaluates, evaluate_security_action_recovery-Evaluates, define_security_action_state-IsDefined,
  normalize_severe_evidence-eq-none,
}
use tenant_trust.Orchestrator.Eligibility.{
  IsTrusted, decide_recovery-IsTrusted, decide_recovery-transition,
}
use tenant_trust.Orchestrator.Actions.{
  ActionType, transition, restrict_access, suspend_subject, block_renewal, revoke_certificate,
  restore_access, issue_replacement_certificate,
}
use tenant_trust.Orchestrator.Recovery.{
  Checkpoint, normalize_recovery_checkpoint, RecoveryDecision, evaluate_security_action_recovery,
  decide_recovery,
}
use tenant_trust.Orchestrator.State.{SecurityActionState, define_security_action_state, active}
use tenant_trust.Orchestrator.Governed.Request.{
  LoadedContext, AuthorizationRow, normalize_request, trusted_admin_context, RecoveryTarget,
  map_authorization, confirm_row, RecoveryAuthorization, is_recovery_request,
}
use tenant_trust.Access.Context.{
  ContextArgument, Store, TenantContext, trusted_context, assert_no_tenant_switch, is_text,
}
use tenant_trust.Orchestrator.Governed.Service.{
  Environment, GovernedAuthorization, AuthorizationRequest, eligible_action, evaluate_request,
  evaluation_input, action_name, recovery_action, authorization_request, check_authorization,
  generated,
}
use tenant_trust.Common.{
  String, List, [], ◌∷◌, Option, none, some, Bool, true, false, refl, ok, err, ◌≡◌, includes, ◌⊎◌,
  not, ◌≢◌, >>=-eq-ok, fail_if, ◌&&◌, inl, inr, sym, Result, with_code, ap, or_fail, subst,
  or_fail-eq-ok, ◌∙◌, guard, with_code-eq-ok, guard-eq-ok, both_true,
}
use tenant_trust.Js.{Value, get, array, nil, is_null, as_array}

pub trusted_admin_context-eq-ok :
    (argument : ContextArgument) (store : Store) (actor : TenantContext)
    → trusted_admin_context argument store ≡ ok actor
    → (trusted_context argument store ≡ ok actor) × (includes actor.roles "tenant-admin" ≡ true)
unfolding trusted_admin_context
trusted_admin_context-eq-ok argument store actor h =
    let (c, found, h1) =
      >>=-eq-ok (with_code (assert_no_tenant_switch argument (array nil) store) _) _ h in
    let (_, admin, h2) = >>=-eq-ok (guard (includes c.roles "tenant-admin") _) _ h1 in
    let same : c ≡ actor = cc in
    (
      sym (assert_no_tenant_switch-none argument store)
          ∙ with_code-eq-ok (assert_no_tenant_switch argument (array nil) store) _ found
          ∙ ap ok same,
      subst (λ (x : TenantContext). includes x.roles "tenant-admin" ≡ true) same
          (guard-eq-ok _ _ admin),
    )

recovery_action-eq-some :
    (o : Option ActionType) (a : ActionType) → recovery_action o ≡ some a → o ≡ some a
recovery_action-eq-some none a h = cc
recovery_action-eq-some (some restrict_access) a h = cc
recovery_action-eq-some (some suspend_subject) a h = cc
recovery_action-eq-some (some block_renewal) a h = cc
recovery_action-eq-some (some revoke_certificate) a h = cc
recovery_action-eq-some (some restore_access) a h = h
recovery_action-eq-some (some issue_replacement_certificate) a h = h

eligible_action-eq-ok :
    (d : RecoveryDecision) (a : ActionType) → eligible_action d ≡ ok a → d.next_action_type ≡ some a
unfolding eligible_action
eligible_action-eq-ok d a h = chosen d.eligible h
  where
    chosen :
        (b : Bool)
        → ◌≡◌ {A = Result ActionType}
            (elim b [
              | false ↦ err d.reason_code
              | true ↦ or_fail (recovery_action d.next_action_type) d.reason_code
            ])
            (ok a)
        → d.next_action_type ≡ some a
    chosen false k = cc
    chosen true k =
        recovery_action-eq-some d.next_action_type a
          (or_fail-eq-ok (recovery_action d.next_action_type) _ k)

evaluate_request-eq-ok :
    (target : RecoveryTarget) (loaded : LoadedContext) (request : Value) (at : String)
    (d : RecoveryDecision) (a : ActionType)
    → evaluate_request target loaded request at ≡ ok (d, a)
    → Evaluates
        (evaluation_input target loaded at (not (is_null (get request "causeResolutionReference"))))
        d
      × (d.next_action_type ≡ some a)
unfolding evaluate_request
evaluate_request-eq-ok target loaded request at d a h =
    let resolved = not (is_null (get request "causeResolutionReference")) in
    let (p, evaluated, h1) =
      >>=-eq-ok (evaluate_security_action_recovery (evaluation_input target loaded at resolved)) _
        h in
    let (b, eligible, h2) = >>=-eq-ok (eligible_action p.1) _ h1 in
    let (_, _, h3) =
      >>=-eq-ok
        (fail_if (is_text (get loaded.current_state "targetCertificate") "revoked" && not resolved)
          _)
        _ h2 in
    let (same, same') = parts h3 in
    (
      subst (λ x. Evaluates (evaluation_input target loaded at resolved) x) same
          (evaluate_security_action_recovery-Evaluates _ p.0 p.1 evaluated),
      subst (λ (x : RecoveryDecision). x.next_action_type ≡ some a) same
          (eligible_action-eq-ok p.1 b eligible ∙ ap some same'),
    )
  where
    parts :
        {e : RecoveryDecision} {b : ActionType}
        → ◌≡◌ {A = Result (RecoveryDecision × ActionType)} (ok (e, b)) (ok (d, a))
        → (e ≡ d) × (b ≡ a)
    parts k = (cc, cc)

-- What the evaluation of a request says of the loaded context.
pub evaluate_request-IsTrusted :
    (target : RecoveryTarget) (loaded : LoadedContext) (request : Value) (at : String)
    (d : RecoveryDecision) (a : ActionType)
    → evaluate_request target loaded request at ≡ ok (d, a)
    → (s : SecurityActionState) × (c : Checkpoint) × (define_security_action_state
          loaded.current_state
        ≡ ok s)
      × (normalize_recovery_checkpoint loaded.checkpoint ≡ ok c)
      × IsTrusted s c
      × (as_array loaded.active_severe_evidence ≡ some [])
      × ((s.target_certificate ≡ active)
          ⊎ (is_null (get request "causeResolutionReference") ≡ false))
      × ((code : String) → transition s a ≢ err code)
unfolding evaluation_input get
evaluate_request-IsTrusted target loaded request at d a h =
    let (e, next) = evaluate_request-eq-ok target loaded request at d a h in
    let named : (decide_recovery e.state e.checkpoint e.evidence e.resolved).next_action_type
        ≡ some a =
      ap (λ (x : RecoveryDecision). x.next_action_type) e.decides ∙ next in
    let (trust, empty, cause) =
      decide_recovery-IsTrusted e.state e.checkpoint e.evidence e.resolved named in
    let defined =
      define_security_action_state-IsDefined loaded.current_state e.state e.reads_state in
    let (made, _, _) =
      decide_recovery-transition e.state e.checkpoint e.evidence e.resolved defined named in
    (
      e.state,
      e.checkpoint,
      e.reads_state,
      e.reads_checkpoint,
      trust,
      normalize_severe_evidence-eq-none loaded.active_severe_evidence e.target e.evaluated_at
          (e.reads_evidence ∙ ap ok empty),
      known e.state (is_null (get request "causeResolutionReference")) e.reads_resolved cause,
      made,
    )
  where
    known :
        (s : SecurityActionState) (b : Bool) {r : Bool}
        → some (not b) ≡ some r
        → (s.target_certificate ≡ active) ⊎ (r ≡ true)
        → (s.target_certificate ≡ active) ⊎ (b ≡ false)
    known s b e (inl a) = inl a
    known s true e (inr t) = cc
    known s false e (inr t) = inr refl

pub normalize_request-same : (request r : Value) → normalize_request request ≡ ok r → request ≡ r
unfolding normalize_request
normalize_request-same request r h =
    let (_, _, h1) = >>=-eq-ok (guard (is_recovery_request request) _) _ h in cc

pub authorization_request-eq-ok :
    (environment : Environment) (target : RecoveryTarget) (loaded : LoadedContext)
    (d : RecoveryDecision) (a : ActionType) (request : Value) (at : String)
    (sent : AuthorizationRequest)
    → authorization_request environment target loaded d a request at ≡ ok sent
    → (sent.action_type ≡ a)
      × (sent.target ≡ target)
      × (sent.expected_state_version ≡ loaded.state_version)
unfolding authorization_request
authorization_request-eq-ok environment target loaded d a request at sent h =
    let (_, _, h1) = >>=-eq-ok (generated "rca_" (environment.id_factory 0)) _ h in
    let (_, _, h2) = >>=-eq-ok (generated "act_" (environment.id_factory 1)) _ h1 in
    let (_, _, h3) = >>=-eq-ok (generated "dec_" (environment.id_factory 2)) _ h2 in
    let (_, _, h4) = >>=-eq-ok (generated "cor_" (environment.id_factory 3)) _ h3 in fields h4
  where
    fields :
        {made : AuthorizationRequest}
        → ok made ≡ ok sent
        → (sent.action_type ≡ made.action_type)
          × (sent.target ≡ made.target)
          × (sent.expected_state_version ≡ made.expected_state_version)
    fields {made} k =
        let same : made ≡ sent = cc in
        (
          sym (ap (λ (x : AuthorizationRequest). x.action_type) same),
          sym (ap (λ (x : AuthorizationRequest). x.target) same),
          sym (ap (λ (x : AuthorizationRequest). x.expected_state_version) same),
        )

pub confirm_row-eq-ok :
    (rows : List AuthorizationRow) (a : RecoveryAuthorization)
    → confirm_row rows ≡ ok a
    → (row : AuthorizationRow) × (rows ≡ row ∷ []) × (map_authorization row ≡ ok a)
unfolding confirm_row
confirm_row-eq-ok [] a h = cc
confirm_row-eq-ok (row ∷ []) a h = (row, refl, h)
confirm_row-eq-ok (row ∷ other ∷ rows) a h = cc

pub check_authorization-eq-ok :
    (actor : TenantContext) (d : RecoveryDecision) (a : ActionType) (c : RecoveryAuthorization)
    (g : GovernedAuthorization)
    → check_authorization actor d a c ≡ ok g
    → (c ≡ g.authorization)
      × (is_text g.authorization.tenant_id actor.tenant_id ≡ true)
      × (is_text g.authorization.action_type (action_name a) ≡ true)
      × (g.target_certificate_reactivated ≡ false)
unfolding check_authorization
check_authorization-eq-ok actor d a c g h =
    let (_, good, h1) =
      >>=-eq-ok
        (guard (is_text c.tenant_id actor.tenant_id && is_text c.action_type (action_name a)) _) _
        h in
    let (tenant, named) =
      both_true (is_text c.tenant_id actor.tenant_id) (is_text c.action_type (action_name a))
        (guard-eq-ok _ _ good) in
    let (same, dead) = parts h1 in
    (
      same,
      subst (λ (x : RecoveryAuthorization). is_text x.tenant_id actor.tenant_id ≡ true) same tenant,
      subst (λ (x : RecoveryAuthorization). is_text x.action_type (action_name a) ≡ true) same
          named,
      dead,
    )
  where
    parts :
        {made : GovernedAuthorization}
        → ok made ≡ ok g
        → (made.authorization ≡ g.authorization)
          × (g.target_certificate_reactivated ≡ made.target_certificate_reactivated)
    parts {made} k =
        let same : made ≡ g = cc in
        (
          ap (λ (x : GovernedAuthorization). x.authorization) same,
          sym (ap (λ (x : GovernedAuthorization). x.target_certificate_reactivated) same),
        )
