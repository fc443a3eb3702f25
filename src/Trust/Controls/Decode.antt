-- ===== src/Trust/Controls/Decode.antt =====
-- trust-transition-controls.mjs: the configuration, the states, and the checks of the arguments.
use tenant_trust.Common.{
  ℕ, String, List, [], ◌∷◌, Option, none, some, Bool, true, false, not, ◌&&◌, ◌||◌, ltb,
  if◌then◌else◌, str_eq, Result, ok, ◌>>=◌, ◌>>◌, guard, or_fail, distinct, sort,
}
use tenant_trust.Js.{
  Value, string, one, points, get, has_exact_keys, valid_score, safe_integer, number_in, member,
  as_text, as_array, is_nullish, matches_id, indexed,
}

pub data Band : Type 0 where
  low medium high : Band

-- `BAND_SET`, each name with its band.
abbrev pub band_set : List (String × Band)
band_set = ("low", low) ∷ ("medium", medium) ∷ ("high", high) ∷ []

abbrev pub band_name : Band → String
band_name low = "low"
band_name medium = "medium"
band_name high = "high"

-- `BAND_IDS.indexOf(band)`.
abbrev pub index_of : Band → ℕ
index_of low = 0
index_of medium = 1
index_of high = 2

-- DEFAULT_TRUST_TRANSITION_CONFIGURATION, in the order of its fields.
abbrev pub low_base_maximum_exclusive : ℕ
low_base_maximum_exclusive = points 40

abbrev pub low_recovery_threshold : ℕ
low_recovery_threshold = points 45

abbrev pub medium_base_maximum_exclusive : ℕ
medium_base_maximum_exclusive = points 70

abbrev pub medium_deterioration_threshold : ℕ
medium_deterioration_threshold = points 35

abbrev pub medium_recovery_threshold : ℕ
medium_recovery_threshold = points 75

abbrev pub high_deterioration_threshold : ℕ
high_deterioration_threshold = points 65

abbrev pub consecutive_qualifying_evaluations : ℕ
consecutive_qualifying_evaluations = 2

abbrev pub distinct_source_count : ℕ
distinct_source_count = 2

abbrev pub score_range : ℕ
score_range = 100

pub record OverrideRule : Type 0 where
  pub component_id : String
  pub score_ceiling : ℕ
  pub forced_band : Band

-- CRITICAL_EVIDENCE_OVERRIDE_RULES.
abbrev pub critical_evidence_override_rules : List (String × OverrideRule)
critical_evidence_override_rules =
    (
      "identity-compromised",
      record { component_id = "identity"; score_ceiling = points 20; forced_band = low },
    )
    ∷ (
      "device-compromised",
      record { component_id = "device"; score_ceiling = points 20; forced_band = low },
    )
    ∷ (
      "account-takeover-pattern",
      record { component_id = "behaviour"; score_ceiling = points 20; forced_band = low },
    )
    ∷ (
      "certificate-revoked",
      record { component_id = "certificate"; score_ceiling = points 0; forced_band = low },
    )
    ∷ (
      "blocking-compliance-breach",
      record { component_id = "compliance"; score_ceiling = points 20; forced_band = low },
    )
    ∷ []

pub record ControlState : Type 0 where
  pub score : ℕ
  pub band : Band
  pub recovery_streak : ℕ

pub record Source : Type 0 where
  pub source_id : String
  pub maximum_influence : ℕ
  pub corroborating_source_ids : List String
  pub distinct_source_ids : List String

pub record CriticalEvidence : Type 0 where
  pub kind : Value
  pub component_id : String
  pub rule : OverrideRule

-- `classifyBaseBand`.
unfoldable pub classify_base_band : ℕ → Band
classify_base_band score =
    if ltb score low_base_maximum_exclusive
    then low
    else if ltb score medium_base_maximum_exclusive
    then medium
    else high

-- `recoveryThreshold`; `none` is null.
abbrev pub recovery_threshold : Band → Option ℕ
recovery_threshold low = some low_recovery_threshold
recovery_threshold medium = some medium_recovery_threshold
recovery_threshold high = none

abbrev pub is_high : Band → Bool
is_high high = true
is_high _ = false

abbrev pub is_medium : Band → Bool
is_medium medium = true
is_medium _ = false

-- `score < recoveryThreshold(band)`: a number is never below null.
abbrev pub below_recovery_threshold : ℕ → Band → Bool
below_recovery_threshold score band = elim (recovery_threshold band) [
  | none ↦ false
  | some t ↦ ltb score t
]

-- The conditions of normalizePreviousState on the values of the three fields.
unfoldable pub is_control_state : ControlState → Bool
is_control_state s =
    ltb s.recovery_streak consecutive_qualifying_evaluations
    && not (is_high s.band && ltb s.score high_deterioration_threshold)
    && not (is_medium s.band && ltb s.score medium_deterioration_threshold)
    && not (ltb 0 s.recovery_streak && (is_high s.band || below_recovery_threshold s.score s.band))

unfoldable pub normalize_previous_state : Value → Result ControlState
normalize_previous_state value = do
  guard (has_exact_keys value ("score" ∷ "band" ∷ "recoveryStreak" ∷ []))
      "PREVIOUS_CONTROL_STATE_INVALID"
  score ← or_fail (valid_score (get value "score")) "PREVIOUS_CONTROL_STATE_INVALID"
  band ← or_fail (member band_set (get value "band")) "PREVIOUS_CONTROL_STATE_INVALID"
  recovery_streak ←
      or_fail (safe_integer (get value "recoveryStreak")) "PREVIOUS_CONTROL_STATE_INVALID"
  let state : ControlState = record {
    score = score;
    band = band;
    recovery_streak = recovery_streak;
  }
  guard (is_control_state state) "PREVIOUS_CONTROL_STATE_INVALID"
  ok state

-- The texts of an array whose every element passes the test of the source identifiers.
abbrev pub source_ids : List Value → Option (List String)
source_ids [] = some []
source_ids (string s ∷ vs) =
    if matches_id "src_" s
    then elim (source_ids vs) [ none ↦ none | some ids ↦ some (s ∷ ids) ]
    else none
source_ids (_ ∷ vs) = none

-- `SOURCE_ID.test(value ?? "")`, with the text.
abbrev pub identifier : String → Value → Option String
identifier prefix (string s) = if matches_id prefix s then some s else none
identifier prefix _ = none

unfoldable pub normalize_source : Value → Result Source
normalize_source value = do
  guard (has_exact_keys value ("sourceId" ∷ "maximumInfluence" ∷ "corroboratingSourceIds" ∷ []))
      "SOURCE_INFLUENCE_INVALID"
  source_id ← or_fail (identifier "src_" (get value "sourceId")) "SOURCE_INFLUENCE_INVALID"
  maximum_influence ←
      or_fail (number_in 1 one (get value "maximumInfluence")) "SOURCE_INFLUENCE_INVALID"
  values ← or_fail (as_array (get value "corroboratingSourceIds")) "SOURCE_INFLUENCE_INVALID"
  corroborating ← or_fail (source_ids values) "SOURCE_INFLUENCE_INVALID"
  ok (record {
    source_id = source_id;
    maximum_influence = maximum_influence;
    corroborating_source_ids = corroborating;
    distinct_source_ids = sort (distinct (source_id ∷ corroborating));
  })

unfoldable pub normalize_critical_evidence : Value → Result (Option CriticalEvidence)
normalize_critical_evidence value = if is_nullish value then ok none else do
  guard (has_exact_keys value ("kind" ∷ "componentId" ∷ [])) "CRITICAL_EVIDENCE_INVALID"
  rule ←
      or_fail (indexed critical_evidence_override_rules (get value "kind"))
        "CRITICAL_EVIDENCE_INVALID"
  component_id ← or_fail (as_text (get value "componentId")) "CRITICAL_EVIDENCE_INVALID"
  guard (str_eq rule.component_id component_id) "CRITICAL_EVIDENCE_INVALID"
  ok (some (record { kind = get value "kind"; component_id = component_id; rule = rule }))
