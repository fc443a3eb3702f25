-- ===== src/Access/Modes.antt =====
-- packages/authorization/src/index.mjs: how the two modes decide on the entries of the matrix.
use tenant_trust.Access.Matrix.{Grants, role_action-Grants}
use tenant_trust.Common.{
  ℕ, ◌≡◌, sym, ◌∙◌, ap, ◌⊎◌, ◌↔◌, inl, inr, String, List, Option, some, true, arith, ok, >>=-eq-ok,
  or_fail, or_fail-eq-ok, guard, guard-eq-ok, str_eq, str_eq_iff, Option-cases, refl, subst, false,
}
use tenant_trust.Js.{member_named, undefined}
use tenant_trust.Access.Context.{
  TenantContext, Store, reference, find, assert_no_tenant_switch, check_claims,
}
use tenant_trust.Access.Roles.{
  Action, Disposition, allow, deny, requires_controls, Rule, actions, role_action,
  resolve_role_action, Mode, pki_rbac_baseline, adaptive_trust_opa, outcome_of, policy_required,
  ModeDecision, decide_mode, evaluate_authorization_mode, assert_baseline_action_allowed, is_allow,
  assert_authorization_mode, ModeOutcome, is_deny,
}

no_claims :
    (r : ℕ) (store : Store)
    → assert_no_tenant_switch (reference r) undefined store
      ≡ or_fail (find r store.resolved) "TENANT_CONTEXT_INVALID"
unfolding assert_no_tenant_switch check_claims
no_claims r store = elim (Option-cases (find r store.resolved)) [
  | inl missing ↦ rw missing
  | inr (c, found) ↦ rw found
]

-- The decision of the adaptive mode on an action of a context: the entry is that of the action, and a
-- policy decision is demanded where the matrix grants the action, with controls or without.
abbrev pub Permits : List String → Option Action → Type 0
Permits roles action = Grants roles action allow ⊎ Grants roles action requires_controls

pub record DecidesAdaptively (c : TenantContext) (text : String) (d : ModeDecision) : Type 0 where
  pub is_adaptive : d.mode ≡ adaptive_trust_opa
  pub uses_trust : d.adaptive_trust_used ≡ true
  pub entry : d.eligibility ≡ role_action c text
  pub demanded :
      ((d.outcome ≡ policy_required) × Permits c.roles (member_named actions text))
      ⊎ ((d.outcome ≡ outcome_of deny) × (¬ Permits c.roles (member_named actions text)))

outcome_iff :
    (x : Disposition) {A B : Type 0}
    → ((x ≡ allow) ↔ A)
    → ((x ≡ requires_controls) ↔ B)
    → ((is_deny x ≡ false) × (A ⊎ B)) ⊎ ((is_deny x ≡ true) × (¬ (A ⊎ B)))
outcome_iff allow a b = inl (refl, inl (a.0 refl))
outcome_iff requires_controls a b = inl (refl, inr (b.0 refl))
outcome_iff deny {A} {B} a b = inr (refl, none_of)
  where
    none_of : A ⊎ B → ⊥
    none_of (inl x) = let e : deny ≡ allow = a.1 x in cc
    none_of (inr y) = let e : deny ≡ requires_controls = b.1 y in cc

decide_adaptive-DecidesAdaptively :
    (c : TenantContext) (text : String)
    → DecidesAdaptively c text (decide_mode adaptive_trust_opa (role_action c text))
unfolding decide_mode
decide_adaptive-DecidesAdaptively c text =
    let (allows, controls) = role_action-Grants c text in
    record {
      is_adaptive = refl;
      uses_trust = refl;
      entry = refl;
      demanded = elim (outcome_iff (role_action c text).disposition allows controls) [
        | inl (grants, permits) ↦ inl ((rw grants refl), permits)
        | inr (denies, never) ↦ inr ((rw denies refl), never)
      ];
    }

DecidesAdaptively-eq :
    (c : TenantContext) (text : String) (d e : ModeDecision)
    → DecidesAdaptively c text d
    → DecidesAdaptively c text e
    → d ≡ e
DecidesAdaptively-eq c text d e h k =
    let same_mode : d.mode ≡ e.mode = h.is_adaptive ∙ sym k.is_adaptive in
    let same_trust : d.adaptive_trust_used ≡ e.adaptive_trust_used =
      h.uses_trust ∙ sym k.uses_trust in
    let same_entry : d.eligibility ≡ e.eligibility = h.entry ∙ sym k.entry in
    let same_outcome : d.outcome ≡ e.outcome = outcomes h.demanded k.demanded in cc
  where
    outcomes :
        {x y : ModeOutcome} {P : Type 0}
        → ((x ≡ policy_required) × P) ⊎ ((x ≡ outcome_of deny) × (¬ P))
        → ((y ≡ policy_required) × P) ⊎ ((y ≡ outcome_of deny) × (¬ P))
        → x ≡ y
    outcomes (inl (a, p)) (inl (b, q)) = a ∙ sym b
    outcomes (inl (a, p)) (inr (b, q)) = absurd (q p)
    outcomes (inr (a, p)) (inl (b, q)) = absurd (p q)
    outcomes (inr (a, p)) (inr (b, q)) = a ∙ sym b

decided_allow :
    (m : Mode) (entry : Rule) (d : ModeDecision) (rule : Rule)
    → d ≡ decide_mode m entry
    → is_allow d.outcome ≡ true
    → d.eligibility ≡ rule
    → (m ≡ pki_rbac_baseline) × (rule ≡ entry) × (rule.disposition ≡ allow)
unfolding decide_mode
decided_allow m entry d rule made allowed given = ground arith

-- The decision of a mode on a context that a certificate has authenticated.
module _ (mode : Option Mode) (r : ℕ) (text : String) (store : Store) where
  evaluate-of :
      {d : ModeDecision}
      → evaluate_authorization_mode mode (reference r) text store ≡ ok d
      → (m : Mode) × (mode ≡ some m)
        × (c : TenantContext) × (find r store.resolved ≡ some c)
        × (c.authentication.source ≡ "mtls-certificate")
        × (d ≡ decide_mode m (role_action c text))
  unfolding evaluate_authorization_mode resolve_role_action assert_authorization_mode
  evaluate-of {d} h =
      let (m, selected, h1) = >>=-eq-ok (or_fail mode "AUTHORIZATION_MODE_INVALID") _ h in
      let (c, trusted, h2) =
        >>=-eq-ok (assert_no_tenant_switch (reference r) undefined store) _ h1 in
      let (_, certified, h3) =
        >>=-eq-ok
          (guard (str_eq c.authentication.source "mtls-certificate")
            "CERTIFICATE_AUTHENTICATION_REQUIRED")
          _ h2 in
      let found = or_fail-eq-ok (find r store.resolved) _ (sym (no_claims r store) ∙ trusted) in
      let again : ok (decide_mode m (role_action c text)) ≡ ok d = rw trusted at h3 in
      (
        m,
        or_fail-eq-ok mode _ selected,
        c,
        found,
        (str_eq_iff _ _).0 (guard-eq-ok _ _ certified),
        cc,
      )

  -- If assertBaselineActionAllowed returns an entry on a reference, then the mode is the baseline,
  -- the reference was made by resolveTenantContext, its context is authenticated by a certificate,
  -- and the entry is that of the context and the action, and it allows.
  pub assert_baseline_action_allowed_lem :
      {rule : Rule}
      → assert_baseline_action_allowed mode (reference r) text store ≡ ok rule
      → (mode ≡ some pki_rbac_baseline)
        × (c : TenantContext) × (find r store.resolved ≡ some c)
        × (c.authentication.source ≡ "mtls-certificate")
        × (rule ≡ role_action c text)
        × (rule.disposition ≡ allow)
  unfolding assert_baseline_action_allowed
  assert_baseline_action_allowed_lem {rule} h =
      let (d, decided, h1) =
        >>=-eq-ok (evaluate_authorization_mode mode (reference r) text store) _ h in
      let (_, allowed, h2) = >>=-eq-ok (guard (is_allow d.outcome) _) _ h1 in
      let (m, selected, c, found, certified, made) = evaluate-of decided in
      let (baseline, given, allows) =
        decided_allow m (role_action c text) d rule made (guard-eq-ok _ _ allowed) (cc) in
      (selected ∙ ap some baseline, c, found, certified, given, allows)

-- On a context that a certificate has authenticated, the adaptive mode always decides.
evaluate-found :
    (r : ℕ) (text : String) (store : Store) (c : TenantContext)
    → find r store.resolved ≡ some c
    → c.authentication.source ≡ "mtls-certificate"
    → evaluate_authorization_mode (some adaptive_trust_opa) (reference r) text store
      ≡ ok (decide_mode adaptive_trust_opa (role_action c text))
unfolding evaluate_authorization_mode resolve_role_action assert_authorization_mode
evaluate-found r text store c found certified =
    let trusted : assert_no_tenant_switch (reference r) undefined store ≡ ok c =
      no_claims r store ∙ ap (λ o. or_fail o "TENANT_CONTEXT_INVALID") found in
    let is_certified = (str_eq_iff c.authentication.source "mtls-certificate").1 certified in
    rw (trusted, is_certified) refl

-- In the adaptive mode, evaluateAuthorizationMode returns a given decision on a reference exactly
-- when the reference was made by resolveTenantContext for a context that a certificate has
-- authenticated, and the decision is of the adaptive mode, uses the adaptive trust, holds the entry
-- of the matrix for that context and action, and demands a policy decision if the roles of the
-- context are granted the action, with controls or without, and denies otherwise.
pub evaluate_adaptive_iff :
    (r : ℕ) (text : String) (store : Store) (d : ModeDecision)
    → (evaluate_authorization_mode (some adaptive_trust_opa) (reference r) text store ≡ ok d) ↔ (
        (c : TenantContext) × (find r store.resolved ≡ some c)
        × (c.authentication.source ≡ "mtls-certificate")
        × DecidesAdaptively c text d)
evaluate_adaptive_iff r text store d = (returned, returns)
  where
    returned :
        evaluate_authorization_mode (some adaptive_trust_opa) (reference r) text store ≡ ok d
        → (c : TenantContext) × (find r store.resolved ≡ some c)
          × (c.authentication.source ≡ "mtls-certificate")
          × DecidesAdaptively c text d
    returned h =
        let (m, selected, c, found, certified, made) =
          evaluate-of (some adaptive_trust_opa) r text store h in
        let adaptive : adaptive_trust_opa ≡ m = cc in
        let made' : decide_mode adaptive_trust_opa (role_action c text) ≡ d =
          ap (λ n. decide_mode n (role_action c text)) adaptive ∙ sym made in
        (
          c,
          found,
          certified,
          subst (λ x. DecidesAdaptively c text x) made' (decide_adaptive-DecidesAdaptively c text),
        )

    returns :
        (c : TenantContext) × (find r store.resolved ≡ some c)
          × (c.authentication.source ≡ "mtls-certificate")
          × DecidesAdaptively c text d
        → evaluate_authorization_mode (some adaptive_trust_opa) (reference r) text store ≡ ok d
    returns (c, found, certified, h) =
        evaluate-found r text store c found certified
        ∙ ap ok (
            DecidesAdaptively-eq c text (decide_mode adaptive_trust_opa (role_action c text)) d
              (decide_adaptive-DecidesAdaptively c text) h)
