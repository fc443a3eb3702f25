-- ===== src/Access/Matrix.antt =====
-- What the role and action matrix grants.
use tenant_trust.Common.{
  ℕ, ◌≤◌, ◌≡◌, ◌⊎◌, ◌↔◌, String, List, Option, none, some, true, arith, includes,
}
use tenant_trust.Js.{member_named}
use tenant_trust.Access.Context.{TenantContext}
use tenant_trust.Access.Roles.{
  Action, profile_read, record_read, record_write, record_export, tenant_administer, Disposition,
  allow, deny, requires_controls, Rule, actions, role_action, pki_rbac_baseline, adaptive_trust_opa,
  outcome_of, decide_mode, action_rule,
}

abbrev pub HasRole : List String → String → Type 0
HasRole roles role = includes roles role ≡ true

-- What the matrix says, without its rows: any role reads its profile and reads and writes records,
-- within its scope; export and administration want the role of an administrator, and controls.
abbrev pub Grants : List String → Option Action → Disposition → Type 0
Grants roles action allow =
    (HasRole roles "tenant-admin" ⊎ HasRole roles "tenant-member")
    × ((action ≡ some profile_read) ⊎ ((action ≡ some record_read) ⊎ (action ≡ some record_write)))
Grants roles action requires_controls =
    HasRole roles "tenant-admin"
    × ((action ≡ some record_export) ⊎ (action ≡ some tenant_administer))
Grants roles action deny = Unit

action_rule-Grants :
    (roles : List String) (action : Option Action)
    → (((action_rule action roles).disposition ≡ allow) ↔ Grants roles action allow)
      × (((action_rule action roles).disposition ≡ requires_controls)
          ↔ Grants roles action requires_controls)
unfolding action_rule
action_rule-Grants roles none = ground arith
action_rule-Grants roles (some a) = ground arith

-- An action is allowed exactly to a context with the role of a member or an administrator, for the
-- profile, the reading and the writing of records, and it requires controls exactly for an
-- administrator, for the export of records and the administration of the tenant.
pub role_action-Grants :
    (c : TenantContext) (text : String)
    → (((role_action c text).disposition ≡ allow)
        ↔ Grants c.roles (member_named actions text) allow)
      × (((role_action c text).disposition ≡ requires_controls)
          ↔ Grants c.roles (member_named actions text) requires_controls)
unfolding role_action
role_action-Grants c text = action_rule-Grants c.roles (member_named actions text)

-- How much a disposition gives.
abbrev pub rank : Disposition → ℕ
rank deny = 0
rank requires_controls = 1
rank allow = 2

action_rule_mono :
    (roles roles' : List String) (action : Option Action)
    → (HasRole roles "tenant-admin" → HasRole roles' "tenant-admin")
    → (HasRole roles "tenant-member" → HasRole roles' "tenant-member")
    → rank (action_rule action roles).disposition ≤ rank (action_rule action roles').disposition
unfolding action_rule
action_rule_mono roles roles' none h k = ground arith
action_rule_mono roles roles' (some a) h k = ground arith

-- If every role of one context is a role of another one, then every action is at least as available
-- to the other one.
pub role_action_mono :
    (c c' : TenantContext) (text : String)
    → ((role : String) → HasRole c.roles role → HasRole c'.roles role)
    → rank (role_action c text).disposition ≤ rank (role_action c' text).disposition
unfolding role_action
role_action_mono c c' text h =
    action_rule_mono c.roles c'.roles (member_named actions text) (h "tenant-admin")
      (h "tenant-member")

-- On the same entry of the matrix the adaptive mode denies exactly what the baseline denies, and never
-- allows anything by itself.
pub decide_mode_refines :
    (r : Rule)
    → ((decide_mode adaptive_trust_opa r).outcome ≡ outcome_of deny)
      ↔ ((decide_mode pki_rbac_baseline r).outcome ≡ outcome_of deny)
unfolding decide_mode
decide_mode_refines r = ground arith
