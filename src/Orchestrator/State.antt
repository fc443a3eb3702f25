-- ===== src/Orchestrator/State.antt =====
-- services/orchestrator/src/index.mjs: the states of a subject under security actions.
use tenant_trust.Common.{
  String, List, [], ◌∷◌, Bool, true, false, not, ◌&&◌, ◌||◌, Result, ok, ◌>>=◌, ◌>>◌, guard,
  fail_if, or_fail,
}
use tenant_trust.Js.{Value, undefined, get, has_exact_keys, member}

pub data Access : Type 0 where
  normal restricted suspended : Access

pub data Renewal : Type 0 where
  allowed blocked : Renewal

pub data Certificate : Type 0 where
  active revoked : Certificate

pub data Replacement : Type 0 where
  not_required required issued : Replacement

pub record SecurityActionState : Type 0 where
  pub access : Access
  pub renewal : Renewal
  pub target_certificate : Certificate
  pub replacement : Replacement

-- INITIAL_SECURITY_ACTION_STATE.
abbrev pub initial_security_action_state : SecurityActionState
initial_security_action_state = record {
  access = normal;
  renewal = allowed;
  target_certificate = active;
  replacement = not_required;
}

-- ACCESS_STATES, RENEWAL_STATES, CERTIFICATE_STATES, REPLACEMENT_STATES.
abbrev pub access_states : List (String × Access)
access_states = ("normal", normal) ∷ ("restricted", restricted) ∷ ("suspended", suspended) ∷ []

abbrev pub renewal_states : List (String × Renewal)
renewal_states = ("allowed", allowed) ∷ ("blocked", blocked) ∷ []

abbrev pub certificate_states : List (String × Certificate)
certificate_states = ("active", active) ∷ ("revoked", revoked) ∷ []

abbrev pub replacement_states : List (String × Replacement)
replacement_states =
    ("not-required", not_required) ∷ ("required", required) ∷ ("issued", issued) ∷ []

abbrev pub is_suspended : Access → Bool
is_suspended suspended = true
is_suspended _ = false

abbrev pub is_normal : Access → Bool
is_normal normal = true
is_normal _ = false

abbrev pub is_blocked : Renewal → Bool
is_blocked blocked = true
is_blocked allowed = false

abbrev pub is_revoked : Certificate → Bool
is_revoked revoked = true
is_revoked active = false

abbrev pub is_not_required : Replacement → Bool
is_not_required not_required = true
is_not_required _ = false

abbrev pub is_required : Replacement → Bool
is_required required = true
is_required _ = false

abbrev pub is_issued : Replacement → Bool
is_issued issued = true
is_issued _ = false

-- The conditions of defineSecurityActionState on the four parts.
unfoldable pub check_security_action_state : SecurityActionState → Result SecurityActionState
check_security_action_state s = do
  fail_if (is_suspended s.access && not (is_blocked s.renewal)) "SUSPENDED_RENEWAL_MUST_BE_BLOCKED"
  fail_if (not (is_revoked s.target_certificate) && not (is_not_required s.replacement))
      "ACTIVE_CERTIFICATE_REPLACEMENT_INVALID"
  fail_if (is_revoked s.target_certificate && is_not_required s.replacement)
      "REVOKED_CERTIFICATE_REPLACEMENT_REQUIRED"
  fail_if
      (is_revoked s.target_certificate
        && is_required s.replacement
        && (not (is_suspended s.access) || not (is_blocked s.renewal)))
      "REVOKED_CERTIFICATE_RECOVERY_INCOMPLETE"
  ok s

-- defineSecurityActionState on an argument that is not left out.
unfoldable pub read_security_action_state : Value → Result SecurityActionState
read_security_action_state value = do
  guard (has_exact_keys value ("access" ∷ "renewal" ∷ "targetCertificate" ∷ "replacement" ∷ []))
      "SECURITY_ACTION_STATE_INVALID"
  access ← or_fail (member access_states (get value "access")) "SECURITY_ACTION_STATE_INVALID"
  renewal ← or_fail (member renewal_states (get value "renewal")) "SECURITY_ACTION_STATE_INVALID"
  target_certificate ←
      or_fail (member certificate_states (get value "targetCertificate"))
        "SECURITY_ACTION_STATE_INVALID"
  replacement ←
      or_fail (member replacement_states (get value "replacement")) "SECURITY_ACTION_STATE_INVALID"
  check_security_action_state (record {
    access = access;
    renewal = renewal;
    target_certificate = target_certificate;
    replacement = replacement;
  })

-- defineSecurityActionState. An argument left out is the initial state.
unfoldable pub define_security_action_state : Value → Result SecurityActionState
unfolding read_security_action_state
define_security_action_state undefined = ok initial_security_action_state
define_security_action_state value = read_security_action_state value
