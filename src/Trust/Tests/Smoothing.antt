-- ===== src/Trust/Tests/Smoothing.antt =====
-- Steps of services/trust/src/temporal-smoothing.mjs, with a retention that halves at every half
-- life and is constant in between.
use tenant_trust.Common.{
  ℕ, ◌+◌, ◌≤◌, ◌<◌, ◌≡◌, refl, ◌⊎◌, ◌↔◌, none, some, arith, ok, err, String, ltb, if◌then◌else◌,
}
use tenant_trust.Js.{one, points}
use tenant_trust.Trust.Rounding.{IsScore, round_product}
use tenant_trust.Trust.Smoothing.Decode.{
  TemporalConfiguration, TemporalState, Observation, is_temporal_state,
}
use tenant_trust.Trust.Smoothing.Advance.{
  Exponential, Smoothed, advance, advance_without, updated, fresh, ewa, stale_after, last_fresh,
  held, decayed, baseline_score,
}
use tenant_trust.Trust.Smoothing.Averages.{IsConfigured, IsStored, advance-IsStored, advance-err}
use tenant_trust.Trust.Smoothing.Decay.{advance_without-bounds, advance_without-twice}

-- All of it up to a half life, and half of it from then on.
abbrev step_retention : ℕ → ℕ → ℕ
step_retention elapsed half_life = if ltb elapsed half_life then one else 500_000_000_000

step_retention_le : (elapsed half_life : ℕ) → step_retention elapsed half_life ≤ one
step_retention_le elapsed half_life = ground arith

step_retention_antitone :
    (earlier later half_life : ℕ)
    → earlier ≤ later
    → step_retention later half_life ≤ step_retention earlier half_life
step_retention_antitone earlier later half_life h = ground arith

abbrev halving : Exponential
halving = record {
  retention = step_retention;
  retention_le = step_retention_le;
  retention_antitone = step_retention_antitone;
}

abbrev configuration : TemporalConfiguration
configuration = record {
  initial_score = points 50;
  smoothing_alpha = 250_000_000_000;
  stale_after_seconds = 60;
}

configuration-IsConfigured : IsConfigured configuration
configuration-IsConfigured = ground arith

-- A subject with 90 points, observed at 1 s and evaluated at 2 s.
abbrev seen : TemporalState
seen = record {
  score = points 90;
  anchor_score = points 90;
  last_fresh_observed_at = some 1_000;
  last_evaluated_at = 2_000;
}

seen-IsStored : IsStored configuration 5_000 seen
unfolding is_temporal_state
seen-IsStored = ground arith

abbrev observation : Observation
observation = record { score = points 70; observed_at = 4_000 }

-- A quarter of 70 and three quarters of 90.
abbrev averaged_state : TemporalState
averaged_state = record {
  score = points 85;
  anchor_score = points 85;
  last_fresh_observed_at = some 4_000;
  last_evaluated_at = 5_000;
}

abbrev averaged_result : Smoothed
averaged_result = record {
  score = points 85;
  phase = updated;
  observation_status = fresh;
  evaluated_at = 5_000;
  previous_score = some (points 90);
  observation_score = some (points 70);
  temporal_state = averaged_state;
  calculation = ewa (points 90) (points 70) 250_000_000_000 750_000_000_000 1_000;
}

averaged_result-eq :
    advance halving configuration (some seen) (some observation) 5_000 ≡ ok averaged_result
unfolding advance round_product
averaged_result-eq = refl

advance-IsStored_example :
    IsStored configuration 5_000 averaged_result.temporal_state × IsScore averaged_result.score
advance-IsStored_example =
    advance-IsStored halving configuration configuration-IsConfigured (some seen) (some observation)
      5_000 seen-IsStored (ground arith) averaged_result-eq

abbrev old_observation : Observation
old_observation = record { score = points 70; observed_at = 1_000 }

abbrev not_newer : String
not_newer = "TRUST_OBSERVATION_NOT_NEWER"

advance-err_example :
    (advance halving configuration (some seen) (some old_observation) 5_000 ≡ err not_newer) ↔ (
      (5_000 ≤ 1_000 + stale_after configuration)
      × (t : ℕ) × (last_fresh (some seen) ≡ some t)
      × (1_000 ≤ t)
      × (not_newer ≡ "TRUST_OBSERVATION_NOT_NEWER"))
advance-err_example = advance-err halving configuration (some seen) old_observation 5_000 not_newer

-- Two minutes and one second after the observation, half of the 40 points above the baseline is left.
half_left : (advance_without halving configuration (some seen) none 122_000).score ≡ points 70
unfolding advance_without round_product
half_left = refl

advance_without-bounds_example :
    let r = advance_without halving configuration (some seen) none 122_000 in
    (((122_000 ≤ 1_000 + stale_after configuration) × (r.phase ≡ held) × (r.score ≡ seen.score))
      ⊎ ((1_000 + stale_after configuration < 122_000)
          × (r.phase ≡ decayed)
          × (baseline_score configuration seen ≤ r.score)
          × (r.score ≤ seen.anchor_score)))
    × (r.temporal_state.anchor_score ≡ seen.anchor_score)
    × (r.temporal_state.last_fresh_observed_at ≡ some 1_000)
advance_without-bounds_example =
    advance_without-bounds halving configuration seen 1_000 122_000 none refl refl refl

later_than_stale : 1_000 + stale_after configuration < 100_000
later_than_stale = omega arith

later_evaluation : 100_000 ≤ 122_000
later_evaluation = omega arith

advance_without-twice_example :
    let between = (advance_without halving configuration (some seen) none 100_000).temporal_state in
    let twice = advance_without halving configuration (some between) none 122_000 in
    let once = advance_without halving configuration (some seen) none 122_000 in
    (twice.score ≡ once.score) × (twice.temporal_state ≡ once.temporal_state)
advance_without-twice_example =
    advance_without-twice halving configuration (some seen) 100_000 122_000 none none none
      later_evaluation
