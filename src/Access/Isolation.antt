-- ===== src/Access/Isolation.antt =====
-- What resolveTenantContext of packages/tenant-context guarantees: a context is bound to the
-- authenticated tenant and to authoritative state, and it cannot be forged.
use tenant_trust.Common.{
  ℕ, ◌+◌, ◌≤◌, ◌<◌, ◌≡◌, refl, ◌≢◌, String, List, [], ◌∷◌, none, some, true, arith, ok, >>=-eq-ok,
  guard, guard-eq-ok, subst,
}
use tenant_trust.Js.{Value, get}
use tenant_trust.Access.Context.{
  Versions, TenantContext, Store, find, Identity, is_text, is_same_identity, authenticated_identity,
  authority_versions, authority_roles, authorized_context, add_resolved, resolve_tenant_context,
  require_record, check_active,
}

-- A context that the authoritative state supports.
pub record IsAuthorized (i : Identity) (authority : Value) (c : TenantContext) : Type 0 where
  pub tenant_bound : c.tenant_id ≡ i.tenant_id
  pub subject_bound : c.subject_id ≡ i.subject_id
  pub source_bound : c.authentication.source ≡ i.source
  pub authentication_bound : c.authentication.authentication_id ≡ i.authentication_id
  pub same_identity :
      is_same_identity i
        (get authority "tenant")
        (get authority "subject")
        (get authority "membership")
      ≡ true
  pub tenant_active : is_text (get (get authority "tenant") "state") "active" ≡ true
  pub subject_active : is_text (get (get authority "subject") "state") "active" ≡ true
  pub membership_active : is_text (get (get authority "membership") "state") "active" ≡ true
  pub has_versions :
      authority_versions
        (get authority "tenant")
        (get authority "subject")
        (get authority "membership")
      ≡ ok c.versions
  pub has_roles : authority_roles (get authority "roles") ≡ ok c.roles

abbrev context_of : Identity → Versions → List String → TenantContext
context_of i versions roles = record {
  tenant_id = i.tenant_id;
  subject_id = i.subject_id;
  roles = roles;
  authentication = record { source = i.source; authentication_id = i.authentication_id };
  versions = versions;
}

check_active-eq-ok :
    (tenant subject membership : Value) {u : Unit {0}}
    → check_active tenant subject membership ≡ ok u
    → (is_text (get tenant "state") "active" ≡ true)
      × (is_text (get subject "state") "active" ≡ true)
      × (is_text (get membership "state") "active" ≡ true)
unfolding check_active
check_active-eq-ok tenant subject membership h = ground arith

pub authorized_context-IsAuthorized :
    (i : Identity) (authority : Value) (c : TenantContext)
    → authorized_context i authority ≡ ok c
    → IsAuthorized i authority c
unfolding authorized_context
authorized_context-IsAuthorized i authority c h =
    let tenant = get authority "tenant" in
    let subject = get authority "subject" in
    let membership = get authority "membership" in
    let (_, _, h1) = >>=-eq-ok (require_record tenant "TENANT_STATE_REQUIRED") _ h in
    let (_, _, h2) = >>=-eq-ok (require_record subject "SUBJECT_STATE_REQUIRED") _ h1 in
    let (_, _, h3) = >>=-eq-ok (require_record membership "MEMBERSHIP_STATE_REQUIRED") _ h2 in
    let (_, same, h4) =
      >>=-eq-ok
        (guard (is_same_identity i tenant subject membership) "AUTHORITATIVE_STATE_MISMATCH") _
        h3 in
    let (_, active, h5) = >>=-eq-ok (check_active tenant subject membership) _ h4 in
    let (versions, has_versions, h6) =
      >>=-eq-ok (authority_versions tenant subject membership) _ h5 in
    let (roles, has_roles, h7) = >>=-eq-ok (authority_roles (get authority "roles")) _ h6 in
    let (t, s, m) = check_active-eq-ok tenant subject membership active in
    let made : context_of i versions roles ≡ c = cc in
    rw (← made) (record {
      tenant_bound = refl;
      subject_bound = refl;
      source_bound = refl;
      authentication_bound = refl;
      same_identity = guard-eq-ok (is_same_identity i tenant subject membership) _ same;
      tenant_active = t;
      subject_active = s;
      membership_active = m;
      has_versions = has_versions;
      has_roles = has_roles;
    })

-- References below the next one are in use, and no other.
abbrev AllBelow : ℕ → List (ℕ × TenantContext) → Type 0
AllBelow n [] = Unit
AllBelow n ((k, c) ∷ rest) = (k < n) × AllBelow n rest

pub record IsStore (store : Store) : Type 0 where
  pub below : AllBelow store.next store.resolved

find-below :
    (n : ℕ) (r : ℕ) (entries : List (ℕ × TenantContext))
    → AllBelow n entries
    → n ≤ r
    → find r entries ≡ none
unfolding find
find-below n r [] h k = refl
find-below n r ((j, c) ∷ rest) h k = ground (arith, find-below n r rest h.1 k)

AllBelow-suc :
    (n : ℕ) (entries : List (ℕ × TenantContext)) → AllBelow n entries → AllBelow (n + 1) entries
AllBelow-suc n [] h = tt
AllBelow-suc n ((j, c) ∷ rest) h = (omega arith, AllBelow-suc n rest h.1)

-- What a call of resolveTenantContext adds: one new reference, to a context that is authorized.
pub record Resolves (authentication authority : Value) (store : Store) (r : ℕ) (store' : Store)
    : Type 0 where
  pub is_store : IsStore store'
  pub was_free : find r store.resolved ≡ none
  pub others_kept : (k : ℕ) → k ≢ r → find k store'.resolved ≡ find k store.resolved
  pub identity : Identity
  pub context : TenantContext
  pub authenticated : authenticated_identity authentication ≡ ok identity
  pub found : find r store'.resolved ≡ some context
  pub authorized : IsAuthorized identity authority context

add_resolved-IsStore :
    (c : TenantContext) (store : Store) → IsStore store → IsStore (add_resolved c store).1
unfolding add_resolved
add_resolved-IsStore c store h = record {
  below = (omega arith, AllBelow-suc store.next store.resolved h.below);
}

add_resolved-free :
    (c : TenantContext) (store : Store)
    → IsStore store
    → find (add_resolved c store).0 store.resolved ≡ none
unfolding add_resolved
add_resolved-free c store h = find-below store.next store.next store.resolved h.below (omega arith)

add_resolved-found :
    (c : TenantContext) (store : Store)
    → find (add_resolved c store).0 (add_resolved c store).1.resolved ≡ some c
unfolding add_resolved find
add_resolved-found c store = ground arith

add_resolved-others :
    (c : TenantContext) (store : Store) (k : ℕ)
    → k ≢ (add_resolved c store).0
    → find k (add_resolved c store).1.resolved ≡ find k store.resolved
unfolding add_resolved find
add_resolved-others c store k ne = ground arith

-- On a store whose references lie below its next one, a call of resolveTenantContext that returns
-- adds one new reference and keeps all others, and the context behind it names the authenticated
-- tenant, subject, source and authentication, of an authoritative state with the same identifiers,
-- with an active tenant, subject and membership, and with its versions and roles.
pub resolve_tenant_context-Resolves :
    (authentication authority : Value) (store : Store) (r : ℕ) (store' : Store)
    → IsStore store
    → resolve_tenant_context authentication authority store ≡ ok (r, store')
    → Resolves authentication authority store r store'
unfolding resolve_tenant_context
resolve_tenant_context-Resolves authentication authority store r store' valid h =
    let (_, _, h1) =
      >>=-eq-ok (require_record authentication "AUTHENTICATED_IDENTITY_REQUIRED") _ h in
    let (_, _, h2) = >>=-eq-ok (require_record authority "AUTHORITATIVE_STATE_REQUIRED") _ h1 in
    let (i, hi, h3) = >>=-eq-ok (authenticated_identity authentication) _ h2 in
    let (c, hc, h4) = >>=-eq-ok (authorized_context i authority) _ h3 in
    let made : add_resolved c store ≡ (r, store') = cc in
    subst (λ (p : ℕ × Store). Resolves authentication authority store p.0 p.1) made
      (record {
        is_store = add_resolved-IsStore c store valid;
        was_free = add_resolved-free c store valid;
        others_kept = λ k ne. add_resolved-others c store k ne;
        identity = i;
        context = c;
        authenticated = hi;
        found = add_resolved-found c store;
        authorized = authorized_context-IsAuthorized i authority c hc;
      })
