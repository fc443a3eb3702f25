-- ===== src/Orchestrator/Evidence.antt =====
-- services/orchestrator/src/index.mjs: the target, the trust transition and the severe evidence, as
-- the rules that trigger and end an action read them.
use tenant_trust.Common.{
  ℕ, ◌-◌, ◌*◌, String, List, [], ◌∷◌, Option, none, some, Bool, true, false, not, ◌&&◌, ◌||◌, ltb,
  ◌==◌, if◌then◌else◌, str_eq, Result, ok, ◌>>=◌, ◌>>◌, guard, fail_if, or_fail, distinct, length,
  map, map_result,
}
use tenant_trust.Js.{
  Value, null, get, has_exact_keys, member, as_text, as_array, valid_score, canonical_utc, indexed,
}
use tenant_trust.Trust.Controls.Decode.{
  Band, low, medium, high, band_set, OverrideRule, CriticalEvidence,
  critical_evidence_override_rules, is_high, is_medium, high_deterioration_threshold,
  medium_deterioration_threshold, identifier,
}
use tenant_trust.Trust.Controls.Apply.{Transition, held, deteriorated, recovered, critical_override}

pub record Target : Type 0 where
  pub tenant_id : String
  pub subject_id : String

unfoldable pub normalize_target : Value → Result Target
normalize_target value = do
  guard (has_exact_keys value ("tenantId" ∷ "subjectId" ∷ [])) "SECURITY_ACTION_TARGET_INVALID"
  tenant_id ← or_fail (identifier "tnt_" (get value "tenantId")) "SECURITY_ACTION_TARGET_INVALID"
  subject_id ← or_fail (identifier "sub_" (get value "subjectId")) "SECURITY_ACTION_TARGET_INVALID"
  ok (record { tenant_id = tenant_id; subject_id = subject_id })

-- TRUST_TRANSITIONS.
abbrev pub trust_transitions : List (String × Transition)
trust_transitions =
    ("held", held)
    ∷ ("deteriorated", deteriorated)
    ∷ ("recovered", recovered)
    ∷ ("critical-override", critical_override)
    ∷ []

abbrev pub is_override : Transition → Bool
is_override critical_override = true
is_override _ = false

abbrev pub is_recovered : Transition → Bool
is_recovered recovered = true
is_recovered _ = false

abbrev pub is_low : Band → Bool
is_low low = true
is_low _ = false

abbrev pub is_some {ℓ} : {A : Type ℓ} → Option A → Bool
is_some none = false
is_some (some _) = true

unfoldable pub normalize_critical_override : Value → Result (Option CriticalEvidence)
normalize_critical_override null = ok none
normalize_critical_override value = do
  guard (has_exact_keys value ("kind" ∷ "componentId" ∷ [])) "TRUST_TRANSITION_INVALID"
  rule ←
      or_fail (indexed critical_evidence_override_rules (get value "kind"))
        "TRUST_TRANSITION_INVALID"
  component_id ← or_fail (as_text (get value "componentId")) "TRUST_TRANSITION_INVALID"
  guard (str_eq rule.component_id component_id) "TRUST_TRANSITION_INVALID"
  ok (some (record { kind = get value "kind"; component_id = component_id; rule = rule }))

pub record TrustTransition : Type 0 where
  pub score : ℕ
  pub band : Band
  pub transition : Transition
  pub critical_override : Option CriticalEvidence

-- `value.band !== rule.forcedBand || value.score > rule.scoreCeiling`.
abbrev pub same_band : Band → Band → Bool
same_band low low = true
same_band medium medium = true
same_band high high = true
same_band _ _ = false

abbrev pub breaks_override : TrustTransition → Bool
breaks_override t = elim t.critical_override [
  | none ↦ false
  | some e ↦ not (same_band t.band e.rule.forced_band) || ltb e.rule.score_ceiling t.score
]

-- The conditions of normalizeTrustTransition on the values of the four fields.
unfoldable pub is_trust_transition : TrustTransition → Bool
is_trust_transition t =
    (if is_override t.transition
      then is_some t.critical_override
      else not (is_some t.critical_override))
    && not (
        (is_high t.band && ltb t.score high_deterioration_threshold)
        || (is_medium t.band && ltb t.score medium_deterioration_threshold)
        || breaks_override t)

unfoldable pub normalize_trust_transition : Value → Result TrustTransition
normalize_trust_transition value = do
  guard (has_exact_keys value ("score" ∷ "band" ∷ "transition" ∷ "criticalOverride" ∷ []))
      "TRUST_TRANSITION_INVALID"
  score ← or_fail (valid_score (get value "score")) "TRUST_TRANSITION_INVALID"
  band ← or_fail (member band_set (get value "band")) "TRUST_TRANSITION_INVALID"
  transition ←
      or_fail (member trust_transitions (get value "transition")) "TRUST_TRANSITION_INVALID"
  override ← normalize_critical_override (get value "criticalOverride")
  let t : TrustTransition = record {
    score = score;
    band = band;
    transition = transition;
    critical_override = override;
  }
  guard (is_trust_transition t) "TRUST_TRANSITION_INVALID"
  ok t

-- One entry of severe evidence; the instant stands for the text of `observedAt`.
pub record SevereEvidence : Type 0 where
  pub evidence_id : String
  pub source_id : String
  pub tenant_id : String
  pub subject_id : String
  pub kind : Value
  pub component_id : String
  pub observed_at : ℕ

-- ACTIONABLE_SEVERE_EVIDENCE: the override rules but that of a revoked certificate.
abbrev pub without_kind : String → List (String × OverrideRule) → List (String × OverrideRule)
without_kind kind [] = []
without_kind kind ((k, r) ∷ rules) =
    if str_eq k kind then without_kind kind rules else (k, r) ∷ without_kind kind rules

unfoldable pub actionable_rule : Value → Option OverrideRule
actionable_rule kind =
    indexed (without_kind "certificate-revoked" critical_evidence_override_rules) kind

-- SECURITY_ACTION_TRIGGER_POLICY.severeEvidence.
abbrev pub maximum_age_seconds : ℕ
maximum_age_seconds = 300

-- The callback of normalizeSevereEvidence, for one entry.
unfoldable pub normalize_severe_entry : Target → ℕ → Value → Result SevereEvidence
normalize_severe_entry target evaluated_at entry = do
  guard
      (has_exact_keys entry (
        "evidenceId" ∷ "sourceId" ∷ "tenantId" ∷ "subjectId" ∷ "kind" ∷ "componentId" ∷ "observedAt"
        ∷ []))
      "SEVERE_EVIDENCE_INVALID"
  evidence_id ← or_fail (identifier "evd_" (get entry "evidenceId")) "SEVERE_EVIDENCE_INVALID"
  source_id ← or_fail (identifier "src_" (get entry "sourceId")) "SEVERE_EVIDENCE_INVALID"
  tenant_id ← or_fail (as_text (get entry "tenantId")) "SEVERE_EVIDENCE_INVALID"
  guard (str_eq tenant_id target.tenant_id) "SEVERE_EVIDENCE_INVALID"
  subject_id ← or_fail (as_text (get entry "subjectId")) "SEVERE_EVIDENCE_INVALID"
  guard (str_eq subject_id target.subject_id) "SEVERE_EVIDENCE_INVALID"
  observed_at ← or_fail (canonical_utc (get entry "observedAt")) "SEVERE_EVIDENCE_INVALID"
  rule ← or_fail (actionable_rule (get entry "kind")) "SEVERE_EVIDENCE_NOT_ACTIONABLE"
  component_id ← or_fail (as_text (get entry "componentId")) "SEVERE_EVIDENCE_NOT_ACTIONABLE"
  guard (str_eq rule.component_id component_id) "SEVERE_EVIDENCE_NOT_ACTIONABLE"
  fail_if
      (ltb evaluated_at observed_at
        || ltb (maximum_age_seconds * 1_000) (evaluated_at - observed_at))
      "SEVERE_EVIDENCE_STALE"
  ok (record {
    evidence_id = evidence_id;
    source_id = source_id;
    tenant_id = tenant_id;
    subject_id = subject_id;
    kind = get entry "kind";
    component_id = component_id;
    observed_at = observed_at;
  })

unfoldable pub normalize_severe_evidence : Value → Target → ℕ → Result (List SevereEvidence)
unfolding map_result
normalize_severe_evidence value target evaluated_at = do
  entries ← or_fail (as_array value) "SEVERE_EVIDENCE_INVALID"
  evidence ← map_result (normalize_severe_entry target evaluated_at) entries
  let ids = map (λ (e : SevereEvidence). e.evidence_id) evidence
  guard (length (distinct ids) == length ids) "SEVERE_EVIDENCE_DUPLICATE"
  ok evidence
