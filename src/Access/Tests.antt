-- ===== src/Access/Tests.antt =====
-- Runs of packages/tenant-context and packages/authorization on one member of one tenant, and the
-- guarantees of the two packages on that member.
use tenant_trust.Common.{
  ◌≡◌, refl, ◌↔◌, String, [], ◌∷◌, some, true, arith, All, ok, err, sort, utf_16_length,
}
use tenant_trust.Common.Int.{pos}
use tenant_trust.Js.{
  Value, object, string, number, finite, array, Items, nil, cons, field, end, points, elements, get,
  matches_id, safe_integer,
}
use tenant_trust.Access.Context.{
  TenantContext, Store, reference, find, resolve_tenant_context, assert_no_tenant_switch,
  revalidate_tenant_context, check_claims, authenticated_identity, authorized_context,
  is_same_identity, check_active, authority_versions, authority_roles, add_resolved,
}
use tenant_trust.Access.Isolation.{IsStore, Resolves, resolve_tenant_context-Resolves}
use tenant_trust.Access.Claims.{
  Revalidates, ClaimsTenant, assert_no_tenant_switch_iff, revalidate_tenant_context-Revalidates,
}
use tenant_trust.Access.Roles.{
  pki_rbac_baseline, adaptive_trust_opa, actions, rules, tenant_member, record_read, allow,
  requires_controls, ModeDecision, role_action, decide_mode, evaluate_authorization_mode,
  assert_baseline_action_allowed, assert_authorization_mode, resolve_role_action, action_rule,
}
use tenant_trust.Access.Matrix.{HasRole, Grants, role_action-Grants}
use tenant_trust.Access.Modes.{
  evaluate_adaptive_iff, DecidesAdaptively, assert_baseline_action_allowed_lem,
}
use tenant_trust.Js.{member_named}

abbrev pub alpha : String
alpha = "tnt_00000000-0000-4000-8000-000000000001"

abbrev bravo : String
bravo = "tnt_00000000-0000-4000-8000-000000000002"

abbrev pub alice_id : String
alice_id = "sub_00000000-0000-4000-8000-000000000003"

abbrev authentication : Value
authentication = object true (
    field "source" (string "mtls-certificate") (
      field "authenticationId" (string "serial-1")
        (field "tenantId" (string alpha) (field "subjectId" (string alice_id) end))))

abbrev version : Value
version = number (finite (pos (points 1)))

abbrev authority_in : String → Value
authority_in state = object true (
    field "tenant"
      (object true (
        field "tenantId" (string alpha)
          (field "state" (string state) (field "version" version end))))
      (field "subject"
        (object true (
          field "subjectId" (string alice_id)
            (field "state" (string "active") (field "version" version end))))
        (field "membership"
          (object true (
            field "tenantId" (string alpha) (
              field "subjectId" (string alice_id)
                (field "state" (string "active") (field "version" version end)))))
          (field "roles" (array (cons (string "tenant-member") nil)) end))))

abbrev authority : Value
authority = authority_in "active"

abbrev empty_store : Store
empty_store = record { next = 0; resolved = [] }

abbrev pub alice : TenantContext
alice = record {
  tenant_id = alpha;
  subject_id = alice_id;
  roles = "tenant-member" ∷ [];
  authentication = record { source = "mtls-certificate"; authentication_id = "serial-1" };
  versions = record { tenant = 1; subject = 1; membership = 1 };
}

abbrev pub one_context : Store
one_context = record { next = 1; resolved = (0, alice) ∷ [] }

abbrev two_contexts : Store
two_contexts = record { next = 2; resolved = (1, alice) ∷ (0, alice) ∷ [] }

empty_store-IsStore : IsStore empty_store
empty_store-IsStore = ground arith

one_context-IsStore : IsStore one_context
one_context-IsStore = ground arith

alice_resolved : resolve_tenant_context authentication authority empty_store ≡ ok (0, one_context)
unfolding resolve_tenant_context authenticated_identity utf_16_length get matches_id
    authorized_context is_same_identity check_active authority_versions safe_integer authority_roles
    add_resolved sort
alice_resolved = refl

inactive_refused :
    resolve_tenant_context authentication (authority_in "suspended") empty_store
    ≡ err "TENANT_INACTIVE"
unfolding resolve_tenant_context authenticated_identity utf_16_length get matches_id
    authorized_context is_same_identity check_active
inactive_refused = refl

resolve_tenant_context-Resolves_example :
    Resolves authentication authority empty_store 0 one_context
resolve_tenant_context-Resolves_example =
    resolve_tenant_context-Resolves authentication authority empty_store 0 one_context
      empty_store-IsStore alice_resolved

abbrev claim_of : String → Items
claim_of tenant =
    cons (object true (field "source" (string "header") (field "tenantId" (string tenant) end))) nil

own_claim : assert_no_tenant_switch (reference 0) (array (claim_of alpha)) one_context ≡ ok alice
unfolding assert_no_tenant_switch check_claims get matches_id
own_claim = refl

foreign_claim :
    assert_no_tenant_switch (reference 0) (array (claim_of bravo)) one_context
    ≡ err "TENANT_CONTEXT_MISMATCH"
unfolding assert_no_tenant_switch check_claims get matches_id
foreign_claim = refl

assert_no_tenant_switch_iff_example :
    (assert_no_tenant_switch (reference 0) (array (claim_of alpha)) one_context ≡ ok alice) ↔ (
      (find 0 one_context.resolved ≡ some alice)
      × All (ClaimsTenant alice) (elements (claim_of alpha)))
assert_no_tenant_switch_iff_example =
    assert_no_tenant_switch_iff 0 (claim_of alpha) one_context alice

alice_again : revalidate_tenant_context (reference 0) authority one_context ≡ ok (1, two_contexts)
unfolding revalidate_tenant_context resolve_tenant_context authenticated_identity utf_16_length get
    matches_id authorized_context is_same_identity check_active authority_versions safe_integer
    authority_roles add_resolved sort
alice_again = refl

revalidate_tenant_context-Revalidates_example : Revalidates 0 authority one_context 1 two_contexts
revalidate_tenant_context-Revalidates_example =
    revalidate_tenant_context-Revalidates 0 authority one_context 1 two_contexts one_context-IsStore
      alice_again

role_action-Grants_example :
    (((role_action alice "record:read").disposition ≡ allow)
      ↔ Grants alice.roles (member_named actions "record:read") allow)
    × (((role_action alice "record:read").disposition ≡ requires_controls)
        ↔ Grants alice.roles (member_named actions "record:read") requires_controls)
role_action-Grants_example = role_action-Grants alice "record:read"

abbrev promoted : TenantContext
promoted = record alice { roles = "tenant-member" ∷ "tenant-admin" ∷ [] }

promoted_keeps : (role : String) → HasRole alice.roles role → HasRole promoted.roles role
promoted_keeps role h = ground arith

abbrev adaptive_decision : ModeDecision
adaptive_decision = decide_mode adaptive_trust_opa (role_action alice "record:read")

adaptive_decided :
    evaluate_authorization_mode (some adaptive_trust_opa) (reference 0) "record:read" one_context
    ≡ ok adaptive_decision
unfolding evaluate_authorization_mode assert_authorization_mode assert_no_tenant_switch check_claims
    resolve_role_action
adaptive_decided = refl

evaluate_adaptive_iff_example :
    (evaluate_authorization_mode (some adaptive_trust_opa) (reference 0) "record:read" one_context
      ≡ ok adaptive_decision)
    ↔ ((c : TenantContext) × (find 0 one_context.resolved ≡ some c)
        × (c.authentication.source ≡ "mtls-certificate")
        × DecidesAdaptively c "record:read" adaptive_decision)
evaluate_adaptive_iff_example = evaluate_adaptive_iff 0 "record:read" one_context adaptive_decision

baseline_allowed :
    assert_baseline_action_allowed (some pki_rbac_baseline) (reference 0) "record:read" one_context
    ≡ ok (rules tenant_member record_read)
unfolding assert_baseline_action_allowed evaluate_authorization_mode assert_authorization_mode
    assert_no_tenant_switch check_claims resolve_role_action decide_mode role_action action_rule
    member_named
baseline_allowed = refl

assert_baseline_action_allowed_lem_example :
    (some pki_rbac_baseline ≡ some pki_rbac_baseline)
    × (c : TenantContext) × (find 0 one_context.resolved ≡ some c)
    × (c.authentication.source ≡ "mtls-certificate")
    × (rules tenant_member record_read ≡ role_action c "record:read")
    × ((rules tenant_member record_read).disposition ≡ allow)
assert_baseline_action_allowed_lem_example =
    assert_baseline_action_allowed_lem (some pki_rbac_baseline) 0 "record:read" one_context
      baseline_allowed
