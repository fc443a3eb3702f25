-- ===== src/Orchestrator/Tests.antt =====
-- Runs of services/orchestrator/src/index.mjs, and its guarantees on a subject whose certificate is
-- revoked, and on evidence from two sources.
use tenant_trust.Orchestrator.Kinds.{HasTwo, sort_values, distinct_values, includes_value}
use tenant_trust.Common.{
  ◌≡◌, refl, ◌≢◌, ◌⊎◌, ◌↔◌, inl, String, List, [], ◌∷◌, Option, none, some, true, false, arith, All,
  ok, err, sort,
}
use mathlib.Core.List.{Memᴰ}
use tenant_trust.Js.{
  object, string, field, end, points, has_exact_keys, get, member, member_named, array, cons, nil,
  is_same_text, indexed,
}
use tenant_trust.Common.Sets.{Differ}
use tenant_trust.Trust.Controls.Decode.{low, high, CriticalEvidence}
use tenant_trust.Trust.Controls.Apply.{recovered, critical_override}
use tenant_trust.Orchestrator.State.{
  SecurityActionState, normal, restricted, suspended, allowed, blocked, active, revoked,
  not_required, required, issued, check_security_action_state, initial_security_action_state,
  define_security_action_state,
}
use tenant_trust.Orchestrator.Actions.{
  ActionType, restrict_access, block_renewal, revoke_certificate, restore_access,
  issue_replacement_certificate, policy_quarantine, severity_rule, recovery_authorization,
  PolicyAction, quarantine, transition, TransitionResult, definition_by_id,
  transition_security_action_state, get_security_action_definition,
}
use tenant_trust.Orchestrator.Evidence.{TrustTransition, SevereEvidence, actionable_rule}
use tenant_trust.Orchestrator.Triggers.{
  decide_triggers, sources_of, kinds_of, trust_confirms_severe_evidence,
}
use tenant_trust.Orchestrator.Recovery.{Checkpoint, decide_recovery}
use tenant_trust.Orchestrator.Lifecycle.{IsDefined, Refused, transition-err}
use tenant_trust.Orchestrator.Sequences.{act, run, access_needs_replacement}
use tenant_trust.Orchestrator.Outcomes.{
  Confirms, revocation_authorized_iff, decide_triggers-not_refused, decide_triggers-blocks_renewal,
}
use tenant_trust.Orchestrator.Eligibility.{
  IsTrusted, IsRecovered, decide_recovery-IsTrusted, decide_recovery-transition, recover_once,
  recover_twice,
}

-- A subject whose certificate is revoked and not yet replaced, and one that is suspended.
abbrev pending : SecurityActionState
pending = record {
  access = suspended;
  renewal = blocked;
  target_certificate = revoked;
  replacement = required;
}

abbrev quarantined : SecurityActionState
quarantined = record {
  access = suspended;
  renewal = blocked;
  target_certificate = active;
  replacement = not_required;
}

pending-IsDefined : IsDefined pending
pending-IsDefined = ground arith

quarantined-IsDefined : IsDefined quarantined
quarantined-IsDefined = ground arith

initial-IsDefined : IsDefined initial_security_action_state
initial-IsDefined = ground arith

-- A restriction of the initial state, through the checks of the arguments.
restriction :
    transition_security_action_state (
      object true (
        field "currentState"
          (object true (
            field "access" (string "normal") (
              field "renewal" (string "allowed") (
                field "targetCertificate"
                  (string "active")
                  (field "replacement" (string "not-required") end)))))
          (field "actionType" (string "restrict-access") end)))
    ≡ ok (record {
      action_type = restrict_access;
      authority = policy_quarantine;
      reversible = true;
      changed = true;
      target_certificate_reactivated = false;
      state = record initial_security_action_state { access = restricted };
    })
unfolding transition_security_action_state has_exact_keys define_security_action_state get member
    check_security_action_state get_security_action_definition transition
restriction = refl

abbrev whole_course : List ActionType
whole_course =
    block_renewal ∷ revoke_certificate ∷ restore_access ∷ issue_replacement_certificate
    ∷ restore_access ∷ []

-- The first restoration is refused; the last one is made.
whole_course-run : run initial_security_action_state whole_course ≡ record {
  access = normal;
  renewal = allowed;
  target_certificate = revoked;
  replacement = issued;
}
unfolding run act transition
whole_course-run = refl

transition-err_example :
    (transition pending restore_access ≡ err "REPLACEMENT_REQUIRED_BEFORE_RECOVERY")
    ↔ Refused restore_access pending "REPLACEMENT_REQUIRED_BEFORE_RECOVERY"
transition-err_example =
    transition-err pending restore_access "REPLACEMENT_REQUIRED_BEFORE_RECOVERY" pending-IsDefined

abbrev revocation : TransitionResult
revocation = record {
  action_type = revoke_certificate;
  authority = severity_rule;
  reversible = false;
  changed = true;
  target_certificate_reactivated = false;
  state = pending;
}

revocation-eq : transition initial_security_action_state revoke_certificate ≡ ok revocation
unfolding transition
revocation-eq = refl

course_revokes : (run initial_security_action_state whole_course).target_certificate ≡ revoked
unfolding run act transition
course_revokes = refl

course_not_suspended : (run initial_security_action_state whole_course).access ≢ suspended
unfolding run act transition
course_not_suspended e = ground arith

initial_not_issued : initial_security_action_state.replacement ≢ issued
initial_not_issued e = ground arith

access_needs_replacement_example : Memᴰ issue_replacement_certificate whole_course
access_needs_replacement_example =
    access_needs_replacement initial_security_action_state whole_course initial-IsDefined
      initial_not_issued course_revokes course_not_suspended

-- Evidence of two kinds from two sources, and a trust that it has overridden.
abbrev first : SevereEvidence
first = record {
  evidence_id = "evd_1";
  source_id = "src_a";
  tenant_id = "tnt_1";
  subject_id = "sub_1";
  kind = string "identity-compromised";
  component_id = "identity";
  observed_at = 0;
}

abbrev second : SevereEvidence
second = record {
  evidence_id = "evd_2";
  source_id = "src_b";
  tenant_id = "tnt_1";
  subject_id = "sub_1";
  kind = string "device-compromised";
  component_id = "device";
  observed_at = 0;
}

abbrev compromise : CriticalEvidence
compromise = record {
  kind = string "identity-compromised";
  component_id = "identity";
  rule = record { component_id = "identity"; score_ceiling = points 20; forced_band = low };
}

abbrev overridden : TrustTransition
overridden = record {
  score = points 5;
  band = low;
  transition = critical_override;
  critical_override = some compromise;
}

abbrev evidence : List SevereEvidence
evidence = first ∷ second ∷ []

abbrev restriction_policy : Option PolicyAction
restriction_policy =
    some (record { outcome = quarantine; action_type = restrict_access; reversible = true })

corroborated :
    (decide_triggers restriction_policy overridden evidence).action_types ≡ revoke_certificate ∷ []
unfolding decide_triggers sort trust_confirms_severe_evidence actionable_rule member_named
    sort_values distinct_values is_same_text includes_value indexed
corroborated = refl

-- One kind, as a text and as an array of that text, counts as two kinds.
abbrev boxed : SevereEvidence
boxed = record second {
  kind = array (cons (string "identity-compromised") nil);
  component_id = "identity";
}

boxed_corroborates :
    (decide_triggers restriction_policy overridden (first ∷ boxed ∷ [])).action_types
    ≡ revoke_certificate ∷ []
unfolding decide_triggers sort trust_confirms_severe_evidence actionable_rule member_named
    sort_values distinct_values is_same_text includes_value indexed
boxed_corroborates = refl

waiting :
    (decide_triggers restriction_policy overridden (first ∷ [])).action_types
    ≡ restrict_access ∷ block_renewal ∷ []
unfolding decide_triggers sort
waiting = refl

revocation_authorized_iff_example :
    ((decide_triggers restriction_policy overridden evidence).revocation_authorized ≡ true) ↔ (
      Differ (sources_of evidence)
      × HasTwo (kinds_of evidence)
      × Confirms overridden (kinds_of evidence))
revocation_authorized_iff_example = revocation_authorized_iff restriction_policy overridden evidence

decide_triggers-not_refused_example :
    All
      (λ a. transition pending a ≢ err "REPLACEMENT_NOT_REQUIRED")
      (decide_triggers restriction_policy overridden evidence).action_types
decide_triggers-not_refused_example =
    decide_triggers-not_refused restriction_policy overridden evidence pending
      "REPLACEMENT_NOT_REQUIRED" (inl refl) pending-IsDefined

has_evidence : evidence ≢ []
has_evidence e = ground arith

decide_triggers-blocks_renewal_example :
    let actions = (decide_triggers restriction_policy overridden evidence).action_types in
    (run initial_security_action_state actions).renewal ≡ blocked
decide_triggers-blocks_renewal_example =
    decide_triggers-blocks_renewal restriction_policy overridden evidence
      initial_security_action_state has_evidence (inl refl) initial-IsDefined refl

-- A trust that is back in full.
abbrev back : Checkpoint
back = record {
  score = points 80;
  band = high;
  transition = recovered;
  consecutive_qualifying_evaluations = 2;
  source_ids = "src_a" ∷ "src_b" ∷ [];
}

abbrev no_evidence : List SevereEvidence
no_evidence = []

pending_next :
    (decide_recovery pending back [] true).next_action_type ≡ some issue_replacement_certificate
unfolding decide_recovery
pending_next = refl

decide_recovery-IsTrusted_example :
    IsTrusted pending back
    × (no_evidence ≡ [])
    × ((pending.target_certificate ≡ active) ⊎ (true ≡ true))
decide_recovery-IsTrusted_example =
    decide_recovery-IsTrusted pending back no_evidence true pending_next

decide_recovery-transition_example :
    ((code : String) → transition pending issue_replacement_certificate ≢ err code)
    × (act pending issue_replacement_certificate ≢ pending)
    × ((definition_by_id issue_replacement_certificate).authority ≡ recovery_authorization)
decide_recovery-transition_example =
    decide_recovery-transition pending back [] true pending-IsDefined pending_next

back-IsRecovered : IsRecovered back
back-IsRecovered = ground arith

recover_twice_example :
    let t = recover_once back (recover_once back pending) in
    (t.access ≡ normal)
    × (t.renewal ≡ allowed)
    × (t.target_certificate ≡ revoked)
    × ((pending.target_certificate ≡ active) ⊎ (t.replacement ≡ issued))
    × ((decide_recovery t back [] true).next_action_type ≡ none)
    × ((decide_recovery t back [] true).reason_code ≡ "NO_RECOVERY_NEEDED")
recover_twice_example = recover_twice pending back pending-IsDefined back-IsRecovered
