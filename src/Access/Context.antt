-- ===== src/Access/Context.antt =====
-- packages/tenant-context/src/index.mjs: the trusted context of a request. RESOLVED_CONTEXTS is a set
-- of object identities: the store holds the contexts that resolveTenantContext has made, which are
-- frozen, under the references that it returned.
use tenant_trust.Common.{
  ℕ, ◌+◌, String, List, [], ◌∷◌, Option, none, some, Bool, true, false, not, ◌&&◌, ltb, leb, ◌==◌,
  if◌then◌else◌, str_eq, Result, ok, err, ◌>>=◌, ◌>>◌, guard, fail_if, or_fail, includes, distinct,
  sort, length, codes, utf_16_length,
}
use tenant_trust.Js.{Value, undefined, string, object, field, end, get, as_array, safe_integer}
use tenant_trust.Trust.Controls.Decode.{identifier}

pub record Authentication : Type 0 where
  pub source : String
  pub authentication_id : String

pub record Versions : Type 0 where
  pub tenant : ℕ
  pub subject : ℕ
  pub membership : ℕ

pub record TenantContext : Type 0 where
  pub tenant_id : String
  pub subject_id : String
  pub roles : List String
  pub authentication : Authentication
  pub versions : Versions

-- The contexts made so far, and the next reference.
pub record Store : Type 0 where
  pub next : ℕ
  pub resolved : List (ℕ × TenantContext)

-- What a caller passes as a context: no object, or a reference to an object of its choice.
pub data ContextArgument : Type 0 where
  no_object : ContextArgument
  reference : ℕ → ContextArgument

-- AUTHENTICATION_SOURCES, TENANT_ROLES, CLAIM_SOURCES.
abbrev pub authentication_sources : List String
authentication_sources = "mtls-certificate" ∷ "trusted-session" ∷ []

abbrev pub tenant_roles : List String
tenant_roles = "tenant-admin" ∷ "tenant-member" ∷ []

abbrev pub claim_sources : List String
claim_sources = "header" ∷ "path" ∷ "query" ∷ "body" ∷ "resource" ∷ []

-- `RESOLVED_CONTEXTS.has(context)`, with the context.
unfoldable pub find : ℕ → List (ℕ × TenantContext) → Option TenantContext
find r [] = none
find r ((k, c) ∷ rest) = if k == r then some c else find r rest

-- `requireRecord(value, reasonCode)`.
unfoldable pub require_record : Value → String → Result (Unit {0})
require_record (object _ _) code = ok tt
require_record _ code = err code

-- A text of a set of texts.
abbrev pub text_in : List String → Value → Option String
text_in texts (string s) = if includes texts s then some s else none
text_in texts _ = none

-- `isPositiveVersion(value)`.
abbrev pub positive_version : Value → Option ℕ
positive_version value = elim (safe_integer value) [
  | none ↦ none
  | some n ↦ if ltb 0 n then some n else none
]

-- The roles, if every element is a role.
abbrev pub roles_of : List Value → Option (List String)
roles_of [] = some []
roles_of (string s ∷ vs) =
    if includes tenant_roles s
    then elim (roles_of vs) [ none ↦ none | some rest ↦ some (s ∷ rest) ]
    else none
roles_of (_ ∷ vs) = none

-- `typeof value === "string"` with a length from 1 to 255.
abbrev pub bounded_text : Value → Option String
bounded_text (string s) =
    if leb 1 (utf_16_length (codes s)) && leb (utf_16_length (codes s)) 255 then some s else none
bounded_text _ = none

-- A field that equals a text, and a state that is active.
unfoldable pub is_text : Value → String → Bool
is_text (string s) t = str_eq s t
is_text _ t = false

pub record Identity : Type 0 where
  pub source : String
  pub tenant_id : String
  pub subject_id : String
  pub authentication_id : String

-- The first part of resolveTenantContext: what the request has authenticated.
unfoldable pub authenticated_identity : Value → Result Identity
authenticated_identity authentication = do
  source ←
      or_fail (text_in authentication_sources (get authentication "source"))
        "AUTHENTICATION_SOURCE_UNTRUSTED"
  tenant_id ←
      or_fail (identifier "tnt_" (get authentication "tenantId")) "AUTHENTICATED_TENANT_REQUIRED"
  subject_id ←
      or_fail (identifier "sub_" (get authentication "subjectId")) "AUTHENTICATED_SUBJECT_REQUIRED"
  authentication_id ←
      or_fail (bounded_text (get authentication "authenticationId")) "AUTHENTICATION_ID_REQUIRED"
  ok (record {
    source = source;
    tenant_id = tenant_id;
    subject_id = subject_id;
    authentication_id = authentication_id;
  })

-- Whether the authoritative state is that of the identity.
unfoldable pub is_same_identity : Identity → Value → Value → Value → Bool
unfolding is_text
is_same_identity identity tenant subject membership =
    is_text (get tenant "tenantId") identity.tenant_id
    && is_text (get subject "subjectId") identity.subject_id
    && is_text (get membership "tenantId") identity.tenant_id
    && is_text (get membership "subjectId") identity.subject_id

unfoldable pub authority_versions : Value → Value → Value → Result Versions
authority_versions tenant subject membership = do
  t ← or_fail (positive_version (get tenant "version")) "AUTHORITY_VERSION_INVALID"
  s ← or_fail (positive_version (get subject "version")) "AUTHORITY_VERSION_INVALID"
  m ← or_fail (positive_version (get membership "version")) "AUTHORITY_VERSION_INVALID"
  ok (record { tenant = t; subject = s; membership = m })

unfoldable pub authority_roles : Value → Result (List String)
authority_roles value = do
  values ← or_fail (as_array value) "TENANT_ROLE_REQUIRED"
  fail_if (length values == 0) "TENANT_ROLE_REQUIRED"
  roles ← or_fail (roles_of values) "TENANT_ROLE_REQUIRED"
  ok (sort (distinct roles))

-- Three states that are active.
unfoldable pub check_active : Value → Value → Value → Result (Unit {0})
unfolding is_text
check_active tenant subject membership = do
  guard (is_text (get tenant "state") "active") "TENANT_INACTIVE"
  guard (is_text (get subject "state") "active") "SUBJECT_INACTIVE"
  guard (is_text (get membership "state") "active") "MEMBERSHIP_INACTIVE"

-- The second part: the authoritative state of the tenant, the subject and the membership.
unfoldable pub authorized_context : Identity → Value → Result TenantContext
authorized_context identity authority = do
  let tenant = get authority "tenant"
  let subject = get authority "subject"
  let membership = get authority "membership"
  require_record tenant "TENANT_STATE_REQUIRED"
  require_record subject "SUBJECT_STATE_REQUIRED"
  require_record membership "MEMBERSHIP_STATE_REQUIRED"
  guard (is_same_identity identity tenant subject membership) "AUTHORITATIVE_STATE_MISMATCH"
  check_active tenant subject membership
  versions ← authority_versions tenant subject membership
  roles ← authority_roles (get authority "roles")
  ok (record {
    tenant_id = identity.tenant_id;
    subject_id = identity.subject_id;
    roles = roles;
    authentication = record {
      source = identity.source;
      authentication_id = identity.authentication_id;
    };
    versions = versions;
  })

-- `RESOLVED_CONTEXTS.add(context)`: the new object gets a reference of its own.
unfoldable pub add_resolved : TenantContext → Store → ℕ × Store
add_resolved context store = (
  store.next,
  record store { next = store.next + 1; resolved = (store.next, context) ∷ store.resolved },
)

unfoldable pub resolve_tenant_context : Value → Value → Store → Result (ℕ × Store)
unfolding require_record
resolve_tenant_context authentication authority store = do
  require_record authentication "AUTHENTICATED_IDENTITY_REQUIRED"
  require_record authority "AUTHORITATIVE_STATE_REQUIRED"
  identity ← authenticated_identity authentication
  context ← authorized_context identity authority
  ok (add_resolved context store)

-- The trusted context that an argument stands for.
unfoldable pub trusted_context : ContextArgument → Store → Result TenantContext
unfolding find
trusted_context no_object store = err "TENANT_CONTEXT_REQUIRED"
trusted_context (reference r) store = or_fail (find r store.resolved) "TENANT_CONTEXT_INVALID"

-- The loop of assertNoTenantSwitch over the claims.
unfoldable pub check_claims : TenantContext → List Value → Result (Unit {0})
unfolding require_record
check_claims context [] = ok tt
check_claims context (claim ∷ claims) =
    require_record claim "TENANT_CLAIM_INVALID"
    >> (or_fail (text_in claim_sources (get claim "source")) "TENANT_CLAIM_INVALID" >>= λ _.
        or_fail (identifier "tnt_" (get claim "tenantId")) "TENANT_CLAIM_INVALID" >>= λ claimed.
        fail_if (not (str_eq claimed context.tenant_id)) "TENANT_CONTEXT_MISMATCH"
        >> check_claims context claims)

-- A list of claims that is left out is empty.
abbrev pub claims_of : Value → Option (List Value)
claims_of undefined = some []
claims_of value = as_array value

unfoldable pub assert_no_tenant_switch : ContextArgument → Value → Store → Result TenantContext
unfolding trusted_context
assert_no_tenant_switch argument claims store = do
  context ← trusted_context argument store
  claim_list ← or_fail (claims_of claims) "TENANT_CLAIMS_INVALID"
  check_claims context claim_list
  ok context

-- The authentication that revalidateTenantContext builds from a context.
abbrev pub authentication_of : TenantContext → Value
authentication_of context = object true (
    field "source" (string context.authentication.source) (
      field "authenticationId" (string context.authentication.authentication_id) (
        field "tenantId" (string context.tenant_id)
          (field "subjectId" (string context.subject_id) end))))

-- revalidateTenantContext: the context is resolved again, from what it says itself.
unfoldable pub revalidate_tenant_context : ContextArgument → Value → Store → Result (ℕ × Store)
unfolding trusted_context
revalidate_tenant_context argument authority store = do
  context ← trusted_context argument store
  resolve_tenant_context (authentication_of context) authority store
