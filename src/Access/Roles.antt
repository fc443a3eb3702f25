-- ===== src/Access/Roles.antt =====
-- packages/authorization/src/index.mjs: the role and action matrix, and the two modes. The modes are
-- two constants, known by identity; any other value is a mode that was not selected.
use tenant_trust.Common.{
  String, List, [], ◌∷◌, Option, none, some, Bool, true, false, if◌then◌else◌, str_eq, Result, ok,
  ◌>>=◌, ◌>>◌, guard, or_fail, includes,
}
use tenant_trust.Js.{undefined, member_named}
use tenant_trust.Access.Context.{TenantContext, Store, ContextArgument, assert_no_tenant_switch}

pub data Role : Type 0 where
  tenant_member tenant_admin : Role

pub data Action : Type 0 where
  profile_read record_read record_write record_export tenant_administer : Action

pub data Disposition : Type 0 where
  allow deny requires_controls : Disposition

pub data Scope : Type 0 where
  self owner tenant no_scope : Scope

pub data Sensitivity : Type 0 where
  confidential sensitive critical restricted : Sensitivity

pub data Control : Type 0 where
  authenticated_certificate active_membership resource_scope : Control
  operation_policy bound_step_up audit_record : Control

-- ACTIONS, with the texts of TENANT_ROLES.
abbrev pub actions : List (String × Action)
actions =
    ("profile:read", profile_read)
    ∷ ("record:read", record_read)
    ∷ ("record:write", record_write)
    ∷ ("record:export", record_export)
    ∷ ("tenant:admin", tenant_administer)
    ∷ []

abbrev pub role_name : Role → String
role_name tenant_member = "tenant-member"
role_name tenant_admin = "tenant-admin"

-- RESOURCE_TYPES and RESOURCE_SENSITIVITY.
unfoldable pub resource_type : Action → String
resource_type profile_read = "subject-profile"
resource_type record_read = "tenant-record"
resource_type record_write = "tenant-record"
resource_type record_export = "tenant-record-export"
resource_type tenant_administer = "tenant-administration"

unfoldable pub resource_sensitivity : Action → Sensitivity
resource_sensitivity profile_read = confidential
resource_sensitivity record_read = confidential
resource_sensitivity record_write = confidential
resource_sensitivity record_export = sensitive
resource_sensitivity tenant_administer = critical

-- COMMON_CONTROLS and SENSITIVE_CONTROLS.
abbrev pub common_controls : List Control
common_controls = authenticated_certificate ∷ active_membership ∷ resource_scope ∷ []

abbrev pub sensitive_controls : List Control
sensitive_controls =
    authenticated_certificate ∷ active_membership ∷ resource_scope ∷ operation_policy
    ∷ bound_step_up ∷ audit_record ∷ []

-- An entry of the matrix; the role and the action of the default are "none" and "unknown".
pub record Rule : Type 0 where
  pub role : String
  pub resource_type : String
  pub sensitivity : Sensitivity
  pub disposition : Disposition
  pub scope : Scope
  pub required_controls : List Control
  pub reason : String

-- `rule`.
unfoldable pub rule : Role → Action → Disposition → Scope → List Control → String → Rule
unfolding resource_type resource_sensitivity
rule role action disposition scope required_controls reason = record {
  role = role_name role;
  resource_type = resource_type action;
  sensitivity = resource_sensitivity action;
  disposition = disposition;
  scope = scope;
  required_controls = required_controls;
  reason = reason;
}

-- ROLE_ACTION_MATRIX, through the map RULES.
unfoldable pub rules : Role → Action → Rule
unfolding rule
rules tenant_member profile_read =
    rule tenant_member profile_read allow self common_controls "member-self-profile"
rules tenant_member record_read =
    rule tenant_member record_read allow owner common_controls "member-owned-record"
rules tenant_member record_write =
    rule tenant_member record_write allow owner common_controls "member-owned-record"
rules tenant_member record_export =
    rule tenant_member record_export deny no_scope sensitive_controls "role-not-eligible"
rules tenant_member tenant_administer =
    rule tenant_member tenant_administer deny no_scope sensitive_controls "role-not-eligible"
rules tenant_admin profile_read =
    rule tenant_admin profile_read allow self common_controls "admin-self-profile"
rules tenant_admin record_read =
    rule tenant_admin record_read allow tenant common_controls "admin-tenant-record"
rules tenant_admin record_write =
    rule tenant_admin record_write allow tenant common_controls "admin-tenant-record"
rules tenant_admin record_export =
    rule tenant_admin record_export requires_controls tenant sensitive_controls
      "sensitive-operation"
rules tenant_admin tenant_administer =
    rule tenant_admin tenant_administer requires_controls tenant sensitive_controls
      "critical-operation"

-- DEFAULT_DENIAL.
abbrev pub default_denial : Rule
default_denial = record {
  role = "none";
  resource_type = "unknown";
  sensitivity = restricted;
  disposition = deny;
  scope = no_scope;
  required_controls = [];
  reason = "default-deny";
}

-- The loop over ROLE_PRECEDENCE.
unfoldable pub rule_by_precedence : List Role → List String → Action → Rule
unfolding rules
rule_by_precedence [] roles action = default_denial
rule_by_precedence (role ∷ precedence) roles action =
    let rest = rule_by_precedence precedence roles action in
    if includes roles (role_name role) then rules role action else rest

-- The rule for an action, if it is one of ACTIONS.
unfoldable pub action_rule : Option Action → List String → Rule
unfolding rule_by_precedence
action_rule none roles = default_denial
action_rule (some action) roles =
    rule_by_precedence (tenant_admin ∷ tenant_member ∷ []) roles action

-- resolveRoleAction on a context that is trusted.
unfoldable pub role_action : TenantContext → String → Rule
role_action context action = action_rule (member_named actions action) context.roles

unfoldable pub resolve_role_action : ContextArgument → String → Store → Result Rule
resolve_role_action argument action store = do
  context ← assert_no_tenant_switch argument undefined store
  ok (role_action context action)

pub data Mode : Type 0 where
  pki_rbac_baseline adaptive_trust_opa : Mode

-- AUTHORIZATION_MODE_IDS, and selectAuthorizationMode.
abbrev pub mode_ids : List (String × Mode)
mode_ids =
    ("pki-rbac-baseline-v1", pki_rbac_baseline) ∷ ("adaptive-trust-opa-v1", adaptive_trust_opa) ∷ []

unfoldable pub select_authorization_mode : String → Result Mode
unfolding member_named
select_authorization_mode mode_id =
    or_fail (member_named mode_ids mode_id) "AUTHORIZATION_MODE_UNSUPPORTED"

-- assertAuthorizationMode; `none` is any value but the two modes.
unfoldable pub assert_authorization_mode : Option Mode → Result Mode
assert_authorization_mode mode = or_fail mode "AUTHORIZATION_MODE_INVALID"

pub data ModeOutcome : Type 0 where
  outcome_of : Disposition → ModeOutcome
  policy_required : ModeOutcome

-- The decision of a mode; the constant texts of a mode are left out.
pub record ModeDecision : Type 0 where
  pub mode : Mode
  pub adaptive_trust_used : Bool
  pub outcome : ModeOutcome
  pub eligibility : Rule

abbrev pub is_deny : Disposition → Bool
is_deny deny = true
is_deny _ = false

-- The decision of a mode on an entry of the matrix.
unfoldable pub decide_mode : Mode → Rule → ModeDecision
decide_mode adaptive_trust_opa eligibility = record {
  mode = adaptive_trust_opa;
  adaptive_trust_used = true;
  outcome = if is_deny eligibility.disposition then outcome_of deny else policy_required;
  eligibility = eligibility;
}
decide_mode pki_rbac_baseline eligibility = record {
  mode = pki_rbac_baseline;
  adaptive_trust_used = false;
  outcome = outcome_of eligibility.disposition;
  eligibility = eligibility;
}

unfoldable pub evaluate_authorization_mode :
    Option Mode → ContextArgument → String → Store → Result ModeDecision
evaluate_authorization_mode mode argument action store = do
  selected ← assert_authorization_mode mode
  context ← assert_no_tenant_switch argument undefined store
  guard (str_eq context.authentication.source "mtls-certificate")
      "CERTIFICATE_AUTHENTICATION_REQUIRED"
  eligibility ← resolve_role_action argument action store
  ok (decide_mode selected eligibility)

abbrev pub is_allow : ModeOutcome → Bool
is_allow (outcome_of allow) = true
is_allow _ = false

-- assertBaselineActionAllowed.
unfoldable pub assert_baseline_action_allowed :
    Option Mode → ContextArgument → String → Store → Result Rule
assert_baseline_action_allowed mode argument action store = do
  decision ← evaluate_authorization_mode mode argument action store
  guard (is_allow decision.outcome) (
      if str_eq decision.eligibility.reason "default-deny"
      then "DEFAULT_DENY"
      else "ADDITIONAL_CONTROLS_REQUIRED")
  ok decision.eligibility
