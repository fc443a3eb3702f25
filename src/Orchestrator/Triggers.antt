-- ===== src/Orchestrator/Triggers.antt =====
-- services/orchestrator/src/index.mjs: evaluateSecurityActionTriggers, which turns a policy outcome,
-- a trust transition and severe evidence into actions.
use tenant_trust.Orchestrator.Kinds.{includes_value, sort_values, distinct_values}
use tenant_trust.Common.{
  ℕ, String, List, [], ◌∷◌, Option, none, some, Bool, true, false, ◌&&◌, leb, if◌then◌else◌, Result,
  ok, ◌>>=◌, ◌>>◌, guard, or_fail, distinct, sort, length, map,
}
use tenant_trust.Js.{Value, get, has_exact_keys, is_plain_object, canonical_utc}
use tenant_trust.Orchestrator.Actions.{
  ActionType, suspend_subject, block_renewal, revoke_certificate, PolicyAction,
  map_policy_outcome_to_security_action,
}
use tenant_trust.Orchestrator.Evidence.{
  Target, TrustTransition, SevereEvidence, normalize_target, normalize_trust_transition,
  normalize_severe_evidence, actionable_rule, is_low, is_override,
}

-- SECURITY_ACTION_TRIGGER_POLICY.severeEvidence.
abbrev pub required_distinct_sources_for_revocation : ℕ
required_distinct_sources_for_revocation = 2

abbrev pub required_distinct_kinds_for_revocation : ℕ
required_distinct_kinds_for_revocation = 2

pub data Severity : Type 0 where
  no_severity low_trust severe_pending_corroboration severe_corroborated : Severity

pub record Summary : Type 0 where
  pub evidence_ids : List String
  pub source_ids : List String
  pub kinds : List Value

pub record TriggerDecision : Type 0 where
  pub severity : Severity
  pub action_types : List ActionType
  pub reason_code : String
  pub revocation_authorized : Bool
  pub score_only_can_revoke : Bool
  pub summary : Summary
  pub enough_sources : Bool
  pub enough_kinds : Bool
  pub trust_confirmed : Bool

abbrev pub sources_of : List SevereEvidence → List String
sources_of = map (λ (e : SevereEvidence). e.source_id)

abbrev pub kinds_of : List SevereEvidence → List Value
kinds_of = map (λ (e : SevereEvidence). e.kind)

-- `normalizePolicyDecision`.
unfoldable pub normalize_policy_decision : Value → Result (Option PolicyAction)
normalize_policy_decision value = do
  guard (is_plain_object value) "POLICY_OUTCOME_INVALID"
  map_policy_outcome_to_security_action value

-- `summarizeSevereEvidence`.
unfoldable pub summarize_severe_evidence : List SevereEvidence → Summary
summarize_severe_evidence evidence = record {
  evidence_ids = sort (map (λ (e : SevereEvidence). e.evidence_id) evidence);
  source_ids = sort (distinct (sources_of evidence));
  kinds = sort_values (distinct_values (kinds_of evidence));
}

-- `trustConfirmsSevereEvidence`. The ceiling is read under the kind of the override, which is among
-- the kinds of the evidence there and so has a rule. A kind that is an array is none of them.
unfoldable pub trust_confirms_severe_evidence : TrustTransition → List Value → Bool
trust_confirms_severe_evidence t kinds =
    is_low t.band && is_override t.transition && elim t.critical_override [
      | none ↦ false
      | some e ↦
          includes_value kinds e.kind
          && elim (actionable_rule e.kind) [ none ↦ false | some r ↦ leb t.score r.score_ceiling ]
    ]

abbrev pub is_empty {ℓ} : {A : Type ℓ} → List A → Bool
is_empty [] = true
is_empty (_ ∷ _) = false

abbrev pub is_suspend : ActionType → Bool
is_suspend suspend_subject = true
is_suspend _ = false

-- The actions while the evidence waits for corroboration.
unfoldable pub pending_actions : Option PolicyAction → List ActionType
pending_actions none = block_renewal ∷ []
pending_actions (some p) =
    if is_suspend p.action_type then p.action_type ∷ [] else p.action_type ∷ block_renewal ∷ []

-- The choice of severity, actions and reason.
unfoldable pub choose_actions :
    Bool → List SevereEvidence → Option PolicyAction → Severity × List ActionType × String
unfolding pending_actions
choose_actions true evidence policy =
    (severe_corroborated, revoke_certificate ∷ [], "CORROBORATED_SEVERE_EVIDENCE")
choose_actions false (e ∷ evidence) policy =
    (severe_pending_corroboration, pending_actions policy, "SEVERE_EVIDENCE_NOT_CORROBORATED")
choose_actions false [] (some p) = (low_trust, p.action_type ∷ [], "POLICY_QUARANTINE")
choose_actions false [] none = (no_severity, [], "NO_DURABLE_ACTION")

-- The decision on arguments that are normalized.
unfoldable pub decide_triggers :
    Option PolicyAction → TrustTransition → List SevereEvidence → TriggerDecision
unfolding summarize_severe_evidence choose_actions
decide_triggers policy t evidence =
    let summary = summarize_severe_evidence evidence in
    let enough_sources = leb required_distinct_sources_for_revocation (length summary.source_ids) in
    let enough_kinds = leb required_distinct_kinds_for_revocation (length summary.kinds) in
    let trust_confirmed = trust_confirms_severe_evidence t summary.kinds in
    let authorized = enough_sources && enough_kinds && trust_confirmed in
    let (severity, action_types, reason_code) = choose_actions authorized evidence policy in
    record {
      severity = severity;
      action_types = action_types;
      reason_code = reason_code;
      revocation_authorized = authorized;
      score_only_can_revoke = false;
      summary = summary;
      enough_sources = enough_sources;
      enough_kinds = enough_kinds;
      trust_confirmed = trust_confirmed;
    }

unfoldable pub evaluate_security_action_triggers : Value → Result (Target × TriggerDecision)
evaluate_security_action_triggers input = do
  guard
      (has_exact_keys input
        ("target" ∷ "policyDecision" ∷ "trustTransition" ∷ "severeEvidence" ∷ "evaluatedAt" ∷ []))
      "SECURITY_ACTION_TRIGGER_INPUT_INVALID"
  evaluated_at ←
      or_fail (canonical_utc (get input "evaluatedAt")) "SECURITY_ACTION_TRIGGER_INPUT_INVALID"
  target ← normalize_target (get input "target")
  policy ← normalize_policy_decision (get input "policyDecision")
  t ← normalize_trust_transition (get input "trustTransition")
  evidence ← normalize_severe_evidence (get input "severeEvidence") target evaluated_at
  ok (target, decide_triggers policy t evidence)
