-- ===== src/Orchestrator/Recovery.antt =====
-- services/orchestrator/src/index.mjs: evaluateSecurityActionRecovery, which says which action, if
-- any, brings a subject back.
use tenant_trust.Common.{
  ℕ, String, List, [], ◌∷◌, Option, none, some, Bool, true, false, not, ◌&&◌, ◌||◌, ltb, leb, ◌==◌,
  if◌then◌else◌, Result, ok, ◌>>=◌, ◌>>◌, guard, or_fail, distinct, sort, length,
}
use tenant_trust.Js.{
  Value, get, has_exact_keys, member, as_boolean, as_array, valid_score, safe_integer,
  canonical_utc,
}
use tenant_trust.Trust.Controls.Decode.{
  Band, medium, high, band_set, index_of, source_ids, low_recovery_threshold,
  medium_recovery_threshold, is_high, is_medium, distinct_source_count,
  consecutive_qualifying_evaluations,
}
use tenant_trust.Trust.Controls.Apply.{Transition}
use tenant_trust.Orchestrator.State.{
  SecurityActionState, is_normal, is_suspended, is_blocked, is_revoked, is_required,
  define_security_action_state,
}
use tenant_trust.Orchestrator.Actions.{
  ActionType, restore_access, issue_replacement_certificate, Authority, recovery_authorization,
}
use tenant_trust.Orchestrator.Evidence.{
  Target, SevereEvidence, normalize_target, normalize_severe_evidence, trust_transitions,
  is_recovered, is_low,
}
use tenant_trust.Orchestrator.Triggers.{is_empty}

-- SECURITY_ACTION_RECOVERY_POLICY: what the trust must reach, by how far the subject is restricted.
pub record Requirement : Type 0 where
  pub minimum_band : Band
  pub minimum_score : ℕ

abbrev pub restricted_requirement : Requirement
restricted_requirement = record { minimum_band = medium; minimum_score = low_recovery_threshold }

abbrev pub suspended_or_renewal_blocked_requirement : Requirement
suspended_or_renewal_blocked_requirement = record {
  minimum_band = high;
  minimum_score = medium_recovery_threshold;
}

abbrev pub revoked_requirement : Requirement
revoked_requirement = record { minimum_band = high; minimum_score = medium_recovery_threshold }

pub record Checkpoint : Type 0 where
  pub score : ℕ
  pub band : Band
  pub transition : Transition
  pub consecutive_qualifying_evaluations : ℕ
  pub source_ids : List String

-- The condition of normalizeRecoveryCheckpoint on a recovered transition.
unfoldable pub is_checkpoint : Checkpoint → Bool
is_checkpoint c = not (
    is_recovered c.transition
    && (is_low c.band
        || (is_medium c.band && ltb c.score low_recovery_threshold)
        || (is_high c.band && ltb c.score medium_recovery_threshold)))

unfoldable pub normalize_recovery_checkpoint : Value → Result Checkpoint
normalize_recovery_checkpoint value = do
  guard
      (has_exact_keys value
        ("score" ∷ "band" ∷ "transition" ∷ "consecutiveQualifyingEvaluations" ∷ "sourceIds" ∷ []))
      "RECOVERY_CHECKPOINT_INVALID"
  score ← or_fail (valid_score (get value "score")) "RECOVERY_CHECKPOINT_INVALID"
  band ← or_fail (member band_set (get value "band")) "RECOVERY_CHECKPOINT_INVALID"
  transition ←
      or_fail (member trust_transitions (get value "transition")) "RECOVERY_CHECKPOINT_INVALID"
  evaluations ←
      or_fail (safe_integer (get value "consecutiveQualifyingEvaluations"))
        "RECOVERY_CHECKPOINT_INVALID"
  values ← or_fail (as_array (get value "sourceIds")) "RECOVERY_CHECKPOINT_INVALID"
  ids ← or_fail (source_ids values) "RECOVERY_CHECKPOINT_INVALID"
  guard (length (distinct ids) == length ids) "RECOVERY_CHECKPOINT_INVALID"
  let c : Checkpoint = record {
    score = score;
    band = band;
    transition = transition;
    consecutive_qualifying_evaluations = evaluations;
    source_ids = sort ids;
  }
  guard (is_checkpoint c) "RECOVERY_CHECKPOINT_INVALID"
  ok c

-- `recoveryTrustReady`.
unfoldable pub recovery_trust_ready : Checkpoint → Requirement → Bool
recovery_trust_ready c requirement =
    is_recovered c.transition
    && leb (index_of requirement.minimum_band) (index_of c.band)
    && leb requirement.minimum_score c.score
    && leb consecutive_qualifying_evaluations c.consecutive_qualifying_evaluations
    && leb distinct_source_count (length c.source_ids)

-- The requirement for a state.
unfoldable pub requirement_of : SecurityActionState → Requirement
requirement_of s =
    if is_revoked s.target_certificate
    then revoked_requirement
    else if is_suspended s.access || is_blocked s.renewal
    then suspended_or_renewal_blocked_requirement
    else restricted_requirement

unfoldable pub recovery_needed : SecurityActionState → Bool
recovery_needed s =
    is_revoked s.target_certificate || not (is_normal s.access) || is_blocked s.renewal

pub record RecoveryDecision : Type 0 where
  pub eligible : Bool
  pub next_action_type : Option ActionType
  pub reason_code : String
  pub authorization_required : Authority
  pub target_certificate_reactivated : Bool
  pub checkpoint : Checkpoint

-- The chain of tests of evaluateSecurityActionRecovery.
unfoldable pub choose_recovery :
    SecurityActionState → Checkpoint → List SevereEvidence → Bool → Option ActionType × String
unfolding recovery_needed recovery_trust_ready requirement_of
choose_recovery s c active severe_cause_resolved =
    if not (recovery_needed s)
    then (none, "NO_RECOVERY_NEEDED")
    else if not (is_empty active)
    then (none, "ACTIVE_SEVERE_EVIDENCE")
    else if not (recovery_trust_ready c (requirement_of s))
    then (none, "TRUST_RECOVERY_INCOMPLETE")
    else if is_revoked s.target_certificate && not severe_cause_resolved
    then (none, "SEVERE_CAUSE_UNRESOLVED")
    else if is_revoked s.target_certificate && is_required s.replacement
    then (some issue_replacement_certificate, "REPLACEMENT_ELIGIBLE")
    else if not (is_normal s.access) || is_blocked s.renewal
    then (some restore_access, "ACCESS_RECOVERY_ELIGIBLE")
    else (none, "NO_RECOVERY_NEEDED")

abbrev is_some {ℓ} : {A : Type ℓ} → Option A → Bool
is_some none = false
is_some (some _) = true

-- The decision on arguments that are normalized.
unfoldable pub decide_recovery :
    SecurityActionState → Checkpoint → List SevereEvidence → Bool → RecoveryDecision
unfolding choose_recovery
decide_recovery s c active severe_cause_resolved =
    let (next_action_type, reason_code) = choose_recovery s c active severe_cause_resolved in
    record {
      eligible = is_some next_action_type;
      next_action_type = next_action_type;
      reason_code = reason_code;
      authorization_required = recovery_authorization;
      target_certificate_reactivated = false;
      checkpoint = c;
    }

unfoldable pub evaluate_security_action_recovery : Value → Result (Target × RecoveryDecision)
evaluate_security_action_recovery input = do
  guard
      (has_exact_keys input (
        "target" ∷ "currentState" ∷ "checkpoint" ∷ "activeSevereEvidence" ∷ "evaluatedAt"
        ∷ "severeCauseResolved" ∷ []))
      "SECURITY_ACTION_RECOVERY_INPUT_INVALID"
  evaluated_at ←
      or_fail (canonical_utc (get input "evaluatedAt")) "SECURITY_ACTION_RECOVERY_INPUT_INVALID"
  severe_cause_resolved ←
      or_fail (as_boolean (get input "severeCauseResolved"))
        "SECURITY_ACTION_RECOVERY_INPUT_INVALID"
  target ← normalize_target (get input "target")
  current ← define_security_action_state (get input "currentState")
  checkpoint ← normalize_recovery_checkpoint (get input "checkpoint")
  active ← normalize_severe_evidence (get input "activeSevereEvidence") target evaluated_at
  ok (target, decide_recovery current checkpoint active severe_cause_resolved)
