-- ===== src/Access/Claims.antt =====
-- What assertNoTenantSwitch and revalidateTenantContext of packages/tenant-context guarantee: no claim
-- switches the tenant of a context, and no revalidation does.
use tenant_trust.Common.{
  ℕ, ◌≡◌, refl, ◌∙◌, ◌↔◌, String, List, [], ◌∷◌, some, true, false, arith, str_eq, str_eq_iff, All,
  ok, >>=-eq-ok, or_fail, or_fail-eq-ok, fail_if, fail_if-eq-ok, not, ap, str_eq_refl, Result,
  ◌>>=◌, err,
}
use tenant_trust.Js.{Value, get, array, elements, Items, nil}
use tenant_trust.Trust.Controls.Decode.{identifier}
use tenant_trust.Access.Context.{
  TenantContext, Store, reference, find, Identity, is_text, authenticated_identity, check_claims,
  assert_no_tenant_switch, revalidate_tenant_context, require_record, text_in, claim_sources,
  authentication_of, ContextArgument, trusted_context,
}
use tenant_trust.Access.Isolation.{IsStore, resolve_tenant_context-Resolves}

-- A claim that names the tenant of a context.
abbrev pub ClaimsTenant : TenantContext → Value → Type 0
ClaimsTenant context claim =
    (require_record claim "TENANT_CLAIM_INVALID" ≡ ok tt)
    × (source : String) × (text_in claim_sources (get claim "source") ≡ some source)
    × (identifier "tnt_" (get claim "tenantId") ≡ some context.tenant_id)

not_different : (a b : String) → not (str_eq a b) ≡ false → a ≡ b
not_different a b h = (str_eq_iff a b).0 (ground arith)

check_claims-of :
    (context : TenantContext) (claims : List Value)
    → check_claims context claims ≡ ok tt
    → All (ClaimsTenant context) claims
unfolding check_claims
check_claims-of context [] h = tt
check_claims-of context (claim ∷ claims) h =
    let (_, is_record, h1) = >>=-eq-ok (require_record claim "TENANT_CLAIM_INVALID") _ h in
    let (source, has_source, h2) =
      >>=-eq-ok (or_fail (text_in claim_sources (get claim "source")) "TENANT_CLAIM_INVALID") _
        h1 in
    let (claimed, has_tenant, h3) =
      >>=-eq-ok (or_fail (identifier "tnt_" (get claim "tenantId")) "TENANT_CLAIM_INVALID") _ h2 in
    let (_, same, h4) =
      >>=-eq-ok (fail_if (not (str_eq claimed context.tenant_id)) "TENANT_CONTEXT_MISMATCH") _ h3 in
    let equal : claimed ≡ context.tenant_id =
      not_different claimed context.tenant_id (fail_if-eq-ok _ _ same) in
    (
      (
        is_record,
        source,
        or_fail-eq-ok _ _ has_source,
        or_fail-eq-ok _ _ has_tenant ∙ ap some equal,
      ),
      check_claims-of context claims h4,
    )

of-check_claims :
    (context : TenantContext) (claims : List Value)
    → All (ClaimsTenant context) claims
    → check_claims context claims ≡ ok tt
unfolding check_claims
of-check_claims context [] h = refl
of-check_claims context (claim ∷ claims) ((is_record, source, has_source, has_tenant), rest) =
    rw (is_record, has_source, has_tenant, str_eq_refl context.tenant_id)
      (of-check_claims context claims rest)

module _ (r : ℕ) (claims : Items) (store : Store) (c : TenantContext) where
  assert_no_tenant_switch-of :
      assert_no_tenant_switch (reference r) (array claims) store ≡ ok c
      → (find r store.resolved ≡ some c) × All (ClaimsTenant c) (elements claims)
  unfolding assert_no_tenant_switch
  assert_no_tenant_switch-of h =
      let (context, found, h1) =
        >>=-eq-ok (or_fail (find r store.resolved) "TENANT_CONTEXT_INVALID") _ h in
      let (_, checked, h2) = >>=-eq-ok (check_claims context (elements claims)) _ h1 in
      let same : context ≡ c = cc in
      rw (← same) (or_fail-eq-ok _ _ found, check_claims-of context (elements claims) checked)

  of-assert_no_tenant_switch :
      (find r store.resolved ≡ some c) × All (ClaimsTenant c) (elements claims)
      → assert_no_tenant_switch (reference r) (array claims) store ≡ ok c
  unfolding assert_no_tenant_switch
  of-assert_no_tenant_switch (found, named) = rw (found, of-check_claims c (elements claims) named)

  -- On a reference and an array of claims, assertNoTenantSwitch returns a context exactly when the
  -- reference was made by resolveTenantContext, with that context, and each claim is an object with
  -- a known source that names the tenant of the context.
  pub assert_no_tenant_switch_iff :
      (assert_no_tenant_switch (reference r) (array claims) store ≡ ok c)
      ↔ ((find r store.resolved ≡ some c) × All (ClaimsTenant c) (elements claims))
  assert_no_tenant_switch_iff = (assert_no_tenant_switch-of, of-assert_no_tenant_switch)

abbrev SameContext : TenantContext → Identity → Type 0
SameContext c i =
    (i.tenant_id ≡ c.tenant_id)
    × (i.subject_id ≡ c.subject_id)
    × (i.source ≡ c.authentication.source)
    × (i.authentication_id ≡ c.authentication.authentication_id)

authenticated_identity-of_context :
    (c : TenantContext) (i : Identity)
    → authenticated_identity (authentication_of c) ≡ ok i
    → SameContext c i
unfolding authenticated_identity get
authenticated_identity-of_context c i h = ground arith

-- A context that is resolved again names the same tenant, subject and authentication, and is
-- authorized by the new authoritative state.
pub record Revalidates (r : ℕ) (authority : Value) (store : Store) (r' : ℕ) (store' : Store)
    : Type 0 where
  pub before : TenantContext
  pub after : TenantContext
  pub found_before : find r store.resolved ≡ some before
  pub found_after : find r' store'.resolved ≡ some after
  pub same_tenant : after.tenant_id ≡ before.tenant_id
  pub same_subject : after.subject_id ≡ before.subject_id
  pub same_authentication : after.authentication ≡ before.authentication
  pub tenant_active : is_text (get (get authority "tenant") "state") "active" ≡ true
  pub membership_active : is_text (get (get authority "membership") "state") "active" ≡ true

-- On a store whose references lie below its next one, a call of revalidateTenantContext on a
-- reference that returns gives a reference to a context with the same tenant, subject and
-- authentication as before, and the new authoritative state has an active tenant and membership.
pub revalidate_tenant_context-Revalidates :
    (r : ℕ) (authority : Value) (store : Store) (r' : ℕ) (store' : Store)
    → IsStore store
    → revalidate_tenant_context (reference r) authority store ≡ ok (r', store')
    → Revalidates r authority store r' store'
unfolding revalidate_tenant_context
revalidate_tenant_context-Revalidates r authority store r' store' valid h =
    let (c, found, h1) = >>=-eq-ok (or_fail (find r store.resolved) "TENANT_CONTEXT_INVALID") _ h in
    let resolved =
      resolve_tenant_context-Resolves (authentication_of c) authority store r' store' valid h1 in
    let same = authenticated_identity-of_context c resolved.identity resolved.authenticated in
    let ok_now = resolved.authorized in
    record {
      before = c;
      after = resolved.context;
      found_before = or_fail-eq-ok _ _ found;
      found_after = resolved.found;
      same_tenant = ok_now.tenant_bound ∙ same.0;
      same_subject = ok_now.subject_bound ∙ same.1;
      same_authentication =
          ground (arith, ok_now.source_bound, same.2, ok_now.authentication_bound, same.3);
      tenant_active = ok_now.tenant_active;
      membership_active = ok_now.membership_active;
    }

-- Without claims, assertNoTenantSwitch only looks the context up.
pub assert_no_tenant_switch-none :
    (argument : ContextArgument) (store : Store)
    → assert_no_tenant_switch argument (array nil) store ≡ trusted_context argument store
unfolding assert_no_tenant_switch check_claims
assert_no_tenant_switch-none argument store = same (trusted_context argument store)
  where
    same : (o : Result TenantContext) → (o >>= λ c. ok c) ≡ o
    same (ok c) = refl
    same (err code) = refl
