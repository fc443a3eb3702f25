-- ===== src/Trust/Smoothing/Decode.antt =====
-- temporal-smoothing.mjs: the configuration, the stored state and the observation, as they are
-- checked.
use tenant_trust.Common.{
  ℕ, [], ◌∷◌, Option, none, some, Bool, ◌&&◌, ltb, leb, ◌==◌, if◌then◌else◌, Result, ok, ◌>>=◌,
  ◌>>◌, guard, fail_if, or_fail,
}
use tenant_trust.Js.{
  Value, null, one, get, has_exact_keys, valid_score, number_in, safe_integer, canonical_utc,
  is_nullish,
}

abbrev pub maximum_stale_after_seconds : ℕ
maximum_stale_after_seconds = 2_592_000

pub record TemporalConfiguration : Type 0 where
  pub initial_score : ℕ
  pub smoothing_alpha : ℕ
  pub stale_after_seconds : ℕ

pub record TemporalState : Type 0 where
  pub score : ℕ
  pub anchor_score : ℕ
  pub last_fresh_observed_at : Option ℕ
  pub last_evaluated_at : ℕ

pub record Observation : Type 0 where
  pub score : ℕ
  pub observed_at : ℕ

-- An integer between two bounds.
abbrev pub integer_in : ℕ → ℕ → Value → Option ℕ
integer_in low high value = elim (safe_integer value) [
  | none ↦ none
  | some n ↦ if leb low n && leb n high then some n else none
]

unfoldable pub define_temporal_trust_configuration : Value → Result TemporalConfiguration
define_temporal_trust_configuration value = do
  guard (has_exact_keys value ("initialScore" ∷ "smoothingAlpha" ∷ "staleAfterSeconds" ∷ []))
      "TEMPORAL_CONFIGURATION_INVALID"
  initial_score ← or_fail (valid_score (get value "initialScore")) "TEMPORAL_CONFIGURATION_INVALID"
  smoothing_alpha ←
      or_fail (number_in 1 one (get value "smoothingAlpha")) "TEMPORAL_CONFIGURATION_INVALID"
  stale_after_seconds ←
      or_fail (integer_in 1 maximum_stale_after_seconds (get value "staleAfterSeconds"))
        "TEMPORAL_CONFIGURATION_INVALID"
  ok (record {
    initial_score = initial_score;
    smoothing_alpha = smoothing_alpha;
    stale_after_seconds = stale_after_seconds;
  })

-- `lastFreshObservedAt`: null, or an instant.
abbrev pub instant_or_null : Value → Option (Option ℕ)
instant_or_null null = some none
instant_or_null value = elim (canonical_utc value) [ none ↦ none | some t ↦ some (some t) ]

-- The conditions of normalizePreviousState on the values of the four fields.
unfoldable pub is_temporal_state : TemporalConfiguration → ℕ → TemporalState → Bool
is_temporal_state configuration evaluated_at s =
    elim s.last_fresh_observed_at [
      | none ↦
          s.score == configuration.initial_score && s.anchor_score == configuration.initial_score
      | some t ↦ leb t s.last_evaluated_at
    ]
    && leb s.last_evaluated_at evaluated_at

-- `normalizePreviousState`; `none` is null.
unfoldable pub normalize_previous_state :
    Value → TemporalConfiguration → ℕ → Result (Option TemporalState)
normalize_previous_state value configuration evaluated_at = if is_nullish value then ok none else do
  guard
      (has_exact_keys value
        ("score" ∷ "anchorScore" ∷ "lastFreshObservedAt" ∷ "lastEvaluatedAt" ∷ []))
      "PREVIOUS_TEMPORAL_STATE_INVALID"
  score ← or_fail (valid_score (get value "score")) "PREVIOUS_TEMPORAL_STATE_INVALID"
  anchor_score ← or_fail (valid_score (get value "anchorScore")) "PREVIOUS_TEMPORAL_STATE_INVALID"
  fresh ←
      or_fail (instant_or_null (get value "lastFreshObservedAt")) "PREVIOUS_TEMPORAL_STATE_INVALID"
  evaluated ←
      or_fail (canonical_utc (get value "lastEvaluatedAt")) "PREVIOUS_TEMPORAL_STATE_INVALID"
  let state : TemporalState = record {
    score = score;
    anchor_score = anchor_score;
    last_fresh_observed_at = fresh;
    last_evaluated_at = evaluated;
  }
  guard (is_temporal_state configuration evaluated_at state) "PREVIOUS_TEMPORAL_STATE_INVALID"
  ok (some state)

-- `normalizeObservation`; `none` is null.
unfoldable pub normalize_observation : Value → ℕ → Result (Option Observation)
normalize_observation value evaluated_at = if is_nullish value then ok none else do
  guard (has_exact_keys value ("score" ∷ "observedAt" ∷ [])) "TRUST_OBSERVATION_INVALID"
  score ← or_fail (valid_score (get value "score")) "TRUST_OBSERVATION_INVALID"
  observed_at ← or_fail (canonical_utc (get value "observedAt")) "TRUST_OBSERVATION_INVALID"
  fail_if (ltb evaluated_at observed_at) "TRUST_OBSERVATION_INVALID"
  ok (some (record { score = score; observed_at = observed_at }))
