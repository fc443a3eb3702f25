-- ===== src/Orchestrator/Actions.antt =====
-- services/orchestrator/src/index.mjs: the six security actions, the
-- actions that a policy outcome may ask for, and the transition that an action makes.
use tenant_trust.Common.{
  String, List, [], ◌∷◌, Option, none, some, Bool, true, false, not, ◌&&◌, if◌then◌else◌, Result,
  ok, ◌>>=◌, ◌>>◌, guard, fail_if, or_fail,
}
use tenant_trust.Js.{Value, get, has_exact_keys, has_only_keys, is_nullish, member}
use tenant_trust.Orchestrator.State.{
  Access, normal, restricted, suspended, Renewal, allowed, blocked, Certificate, active, revoked,
  Replacement, not_required, required, issued, SecurityActionState, is_normal, is_revoked,
  is_issued, check_security_action_state, define_security_action_state,
}

pub data ActionType : Type 0 where
  restrict_access suspend_subject block_renewal revoke_certificate : ActionType
  restore_access issue_replacement_certificate : ActionType

pub data Authority : Type 0 where
  policy_quarantine severity_rule recovery_authorization : Authority

pub data PolicyOutcome : Type 0 where
  allow step_up deny quarantine : PolicyOutcome

-- POLICY_OUTCOMES and SECURITY_ACTION_TYPES.
abbrev pub policy_outcomes : List (String × PolicyOutcome)
policy_outcomes =
    ("ALLOW", allow) ∷ ("STEP_UP", step_up) ∷ ("DENY", deny) ∷ ("QUARANTINE", quarantine) ∷ []

abbrev pub security_action_types : List (String × ActionType)
security_action_types =
    ("restrict-access", restrict_access)
    ∷ ("suspend-subject", suspend_subject)
    ∷ ("block-renewal", block_renewal)
    ∷ ("revoke-certificate", revoke_certificate)
    ∷ ("restore-access", restore_access)
    ∷ ("issue-replacement-certificate", issue_replacement_certificate)
    ∷ []

-- The effect of an action on each part of the state; `none` is "unchanged".
pub record Effect : Type 0 where
  pub access : Option Access
  pub renewal : Option Renewal
  pub target_certificate : Option Certificate
  pub replacement : Option Replacement

pub record ActionDefinition : Type 0 where
  pub id : ActionType
  pub authority : Authority
  pub reversible : Bool
  pub effect : Effect

-- `action`.
abbrev pub action : ActionType → Authority → Bool → Effect → ActionDefinition
action id authority reversible effect = record {
  id = id;
  authority = authority;
  reversible = reversible;
  effect = effect;
}

-- SECURITY_ACTION_DEFINITIONS, through the map SECURITY_ACTION_DEFINITION_BY_ID.
unfoldable pub definition_by_id : ActionType → ActionDefinition
definition_by_id restrict_access = action restrict_access policy_quarantine true (record {
  access = some restricted;
  renewal = none;
  target_certificate = none;
  replacement = none;
})
definition_by_id suspend_subject = action suspend_subject policy_quarantine true (record {
  access = some suspended;
  renewal = some blocked;
  target_certificate = none;
  replacement = none;
})
definition_by_id block_renewal = action block_renewal severity_rule true (record {
  access = none;
  renewal = some blocked;
  target_certificate = none;
  replacement = none;
})
definition_by_id revoke_certificate = action revoke_certificate severity_rule false (record {
  access = some suspended;
  renewal = some blocked;
  target_certificate = some revoked;
  replacement = some required;
})
definition_by_id restore_access = action restore_access recovery_authorization true (record {
  access = some normal;
  renewal = some allowed;
  target_certificate = none;
  replacement = none;
})
definition_by_id issue_replacement_certificate =
    action issue_replacement_certificate recovery_authorization false (record {
      access = none;
      renewal = none;
      target_certificate = some revoked;
      replacement = some issued;
    })

-- getSecurityActionDefinition.
unfoldable pub get_security_action_definition : Value → Result ActionDefinition
unfolding definition_by_id
get_security_action_definition action_type = do
  id ← or_fail (member security_action_types action_type) "SECURITY_ACTION_TYPE_UNKNOWN"
  ok (definition_by_id id)

pub record PolicyAction : Type 0 where
  pub outcome : PolicyOutcome
  pub action_type : ActionType
  pub reversible : Bool

-- POLICY_OUTCOME_ACTION_MAPPING.QUARANTINE.
abbrev pub quarantine_actions : List (String × ActionType)
quarantine_actions =
    ("restrict-access", restrict_access) ∷ ("suspend-subject", suspend_subject) ∷ []

-- The part of mapPolicyOutcomeToSecurityAction that depends on the outcome; `none` is null.
unfoldable pub action_of_outcome : PolicyOutcome → Value → Result (Option PolicyAction)
action_of_outcome quarantine value = do
  action_type ← or_fail (member quarantine_actions value) "QUARANTINE_ACTION_INVALID"
  ok (some (record { outcome = quarantine; action_type = action_type; reversible = true }))
action_of_outcome _ value = do guard (is_nullish value) "POLICY_ACTION_NOT_ALLOWED"; ok none

-- mapPolicyOutcomeToSecurityAction. `Object.hasOwn` holds where the outcome is a text.
unfoldable pub map_policy_outcome_to_security_action : Value → Result (Option PolicyAction)
unfolding action_of_outcome
map_policy_outcome_to_security_action input = do
  guard (has_only_keys input ("outcome" ∷ "quarantineActionType" ∷ [])) "POLICY_OUTCOME_INVALID"
  outcome ← or_fail (member policy_outcomes (get input "outcome")) "POLICY_OUTCOME_INVALID"
  action_of_outcome outcome (get input "quarantineActionType")

-- The `switch` of transitionSecurityActionState.
unfoldable pub next_state : ActionType → SecurityActionState → Result SecurityActionState
next_state restrict_access s =
    ok (record s { access = if is_normal s.access then restricted else s.access })
next_state suspend_subject s = ok (record s { access = suspended; renewal = blocked })
next_state block_renewal s = ok (record s { renewal = blocked })
next_state revoke_certificate s = ok (
    if is_revoked s.target_certificate then s else record {
      access = suspended;
      renewal = blocked;
      target_certificate = revoked;
      replacement = required;
    })
next_state issue_replacement_certificate s = do
  guard (is_revoked s.target_certificate) "REPLACEMENT_NOT_REQUIRED"
  ok (record s { replacement = issued })
next_state restore_access s = do
  fail_if (is_revoked s.target_certificate && not (is_issued s.replacement))
      "REPLACEMENT_REQUIRED_BEFORE_RECOVERY"
  ok (record s { access = normal; renewal = allowed })

-- `statesEqual`.
abbrev pub access_eq : Access → Access → Bool
access_eq normal normal = true
access_eq restricted restricted = true
access_eq suspended suspended = true
access_eq _ _ = false

abbrev pub renewal_eq : Renewal → Renewal → Bool
renewal_eq allowed allowed = true
renewal_eq blocked blocked = true
renewal_eq _ _ = false

abbrev pub certificate_eq : Certificate → Certificate → Bool
certificate_eq active active = true
certificate_eq revoked revoked = true
certificate_eq _ _ = false

abbrev pub replacement_eq : Replacement → Replacement → Bool
replacement_eq not_required not_required = true
replacement_eq required required = true
replacement_eq issued issued = true
replacement_eq _ _ = false

unfoldable pub states_equal : SecurityActionState → SecurityActionState → Bool
states_equal a b =
    access_eq a.access b.access
    && renewal_eq a.renewal b.renewal
    && certificate_eq a.target_certificate b.target_certificate
    && replacement_eq a.replacement b.replacement

pub record TransitionResult : Type 0 where
  pub action_type : ActionType
  pub authority : Authority
  pub reversible : Bool
  pub changed : Bool
  pub target_certificate_reactivated : Bool
  pub state : SecurityActionState

-- transitionSecurityActionState on a state that is defined and a known action. The next state is
-- built from parts that are known, so only the conditions of defineSecurityActionState remain.
unfoldable pub transition : SecurityActionState → ActionType → Result TransitionResult
unfolding next_state check_security_action_state definition_by_id states_equal
transition current action_type = do
  let definition = definition_by_id action_type
  next ← next_state definition.id current
  state ← check_security_action_state next
  ok (record {
    action_type = definition.id;
    authority = definition.authority;
    reversible = definition.reversible;
    changed = not (states_equal current state);
    target_certificate_reactivated = false;
    state = state;
  })

unfoldable pub transition_security_action_state : Value → Result TransitionResult
transition_security_action_state input = do
  guard (has_exact_keys input ("currentState" ∷ "actionType" ∷ []))
      "SECURITY_ACTION_TRANSITION_INVALID"
  current ← define_security_action_state (get input "currentState")
  definition ← get_security_action_definition (get input "actionType")
  transition current definition.id
