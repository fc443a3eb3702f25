-- ===== src/Orchestrator/Execution.antt =====
-- services/orchestrator/src/action-orchestration.mjs: createSecurityActionExecutor. The services that
-- revoke a certificate and issue a replacement are parameters; a call of a service is noted.
use tenant_trust.Common.{
  ℕ, ◌*◌, String, List, [], ◌∷◌, Option, none, some, Bool, true, false, not, ◌&&◌, ◌||◌, leb, ltb,
  ◌==◌, if◌then◌else◌, str_eq, all, length, codes, Result, ok, err, ◌>>=◌, ◌>>◌, guard,
}
use tenant_trust.Js.{matches_id}
use tenant_trust.Orchestrator.State.{SecurityActionState}
use tenant_trust.Orchestrator.Actions.{
  ActionType, revoke_certificate, restore_access, issue_replacement_certificate, Authority,
  recovery_authorization,
}

-- The fields of a claim that the executor and the worker read; `none` is null. The time is an instant.
pub record Claim : Type 0 where
  pub tenant_id : String
  pub action_id : String
  pub target_certificate_id : String
  pub action_type : ActionType
  pub authority_class : Authority
  pub attempt_count : ℕ
  pub expected_state_version : ℕ
  pub current_state : SecurityActionState
  pub recovery_authorization_id : Option String
  pub recovery_authorized_by_subject_id : Option String
  pub recovery_authorized_until : Option ℕ

-- The argument of `execute`: a claim with the next state.
pub record Action : Type 0 where
  pub claim : Claim
  pub next_state : SecurityActionState
  pub changed : Bool

pub record RevocationResult : Type 0 where
  pub certificate_id : String
  pub state : String
  pub event_id : String

pub record ReplacementResult : Type 0 where
  pub target_certificate_id : String
  pub replacement_certificate_id : String
  pub state : String

pub record Services : Type 0 where
  pub revoke_certificate : Option (Action → Result (Option RevocationResult))
  pub issue_replacement_certificate : Option (Action → Result (Option ReplacementResult))

pub data ServiceCall : Type 0 where
  revoking : Action → ServiceCall
  issuing : Action → ServiceCall

pub record Confirmation : Type 0 where
  pub action_id : String
  pub status : String
  pub external_reference : Option String

-- EXTERNAL_REFERENCE: from 3 to 256 characters, the first a letter or a digit.
abbrev is_letter_or_digit : ℕ → Bool
is_letter_or_digit c =
    (leb b'a' c && leb c b'z') || (leb b'A' c && leb c b'Z') || (leb b'0' c && leb c b'9')

abbrev is_reference_character : ℕ → Bool
is_reference_character c =
    is_letter_or_digit c || c == b'.' || c == b'_' || c == b':' || c == b'/' || c == b'-'

abbrev starts_reference : List ℕ → Bool
starts_reference [] = false
starts_reference (c ∷ cs) = is_letter_or_digit c && all is_reference_character cs

unfoldable pub is_external_reference : String → Bool
is_external_reference s =
    starts_reference (codes s) && leb 3 (length (codes s)) && leb (length (codes s)) 256

-- 1 January 1970, which `new Date(null)` is.
abbrev epoch : ℕ
epoch = 719_528 * 86_400_000

abbrev or_epoch : Option ℕ → ℕ
or_epoch none = epoch
or_epoch (some t) = t

abbrev pub has_id : String → Option String → Bool
has_id prefix none = false
has_id prefix (some s) = matches_id prefix s

abbrev pub is_recovery_authorization : Authority → Bool
is_recovery_authorization recovery_authorization = true
is_recovery_authorization _ = false

-- The test of a recovery action at an instant.
unfoldable pub has_recovery_authorization : Claim → ℕ → Bool
has_recovery_authorization claim now =
    is_recovery_authorization claim.authority_class
    && has_id "rca_" claim.recovery_authorization_id
    && has_id "sub_" claim.recovery_authorized_by_subject_id
    && not (ltb (or_epoch claim.recovery_authorized_until) now)

abbrev pub confirmed : Claim → Option String → Confirmation
confirmed claim external_reference = record {
  action_id = claim.action_id;
  status = "succeeded";
  external_reference = external_reference;
}

-- What the services must have done.
unfoldable pub confirm_revocation : Claim → Option RevocationResult → Result Confirmation
confirm_revocation claim none = err "REVOCATION_EXECUTION_UNCONFIRMED"
confirm_revocation claim (some result) = do
  guard
      (str_eq result.certificate_id claim.target_certificate_id
        && str_eq result.state "revoked"
        && is_external_reference result.event_id)
      "REVOCATION_EXECUTION_UNCONFIRMED"
  ok (confirmed claim (some result.event_id))

unfoldable pub confirm_replacement : Claim → Option ReplacementResult → Result Confirmation
confirm_replacement claim none = err "REPLACEMENT_ISSUANCE_UNCONFIRMED"
confirm_replacement claim (some result) = do
  guard
      (str_eq result.target_certificate_id claim.target_certificate_id
        && matches_id "crt_" result.replacement_certificate_id
        && not (str_eq result.replacement_certificate_id claim.target_certificate_id)
        && str_eq result.state "active")
      "REPLACEMENT_ISSUANCE_UNCONFIRMED"
  ok (confirmed claim (some result.replacement_certificate_id))

unfoldable pub execute_revocation : Services → Action → List ServiceCall × Result Confirmation
execute_revocation services action = elim services.revoke_certificate [
  | none ↦ ([], err "REVOCATION_EXECUTOR_UNAVAILABLE")
  | some revoke ↦ (revoking action ∷ [], revoke action >>= confirm_revocation action.claim)
]

unfoldable pub execute_replacement : Services → Action → List ServiceCall × Result Confirmation
execute_replacement services action = elim services.issue_replacement_certificate [
  | none ↦ ([], err "REPLACEMENT_EXECUTOR_UNAVAILABLE")
  | some issue ↦ (issuing action ∷ [], issue action >>= confirm_replacement action.claim)
]

-- The tests of `execute` by the type of the action.
unfoldable pub execute_type :
    ActionType → Services → Action → ℕ → List ServiceCall × Result Confirmation
unfolding execute_revocation execute_replacement has_recovery_authorization
execute_type revoke_certificate services action now = execute_revocation services action
execute_type restore_access services action now =
    if has_recovery_authorization action.claim now
    then ([], ok (confirmed action.claim none))
    else ([], err "RECOVERY_AUTHORIZATION_INVALID")
execute_type issue_replacement_certificate services action now =
    if has_recovery_authorization action.claim now
    then execute_replacement services action
    else ([], err "RECOVERY_AUTHORIZATION_INVALID")
execute_type _ services action now = ([], ok (confirmed action.claim none))

-- `execute`, with the clock at an instant.
unfoldable pub execute : Services → ℕ → Action → List ServiceCall × Result Confirmation
unfolding execute_type
execute services now action =
    if matches_id "act_" action.claim.action_id
    then execute_type action.claim.action_type services action now
    else ([], err "SECURITY_ACTION_EXECUTION_INVALID")
