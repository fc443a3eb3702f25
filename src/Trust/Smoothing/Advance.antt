-- ===== src/Trust/Smoothing/Advance.antt =====
-- temporal-smoothing.mjs: advanceSmoothedTrustScore.
use tenant_trust.Common.{
  ℕ, ◌+◌, ◌-◌, ◌*◌, ◌≤◌, Option, none, some, Bool, true, false, ltb, leb, ◌==◌, if◌then◌else◌,
  Result, ok, ◌>>=◌, ◌>>◌, fail_if, or_fail,
}
use tenant_trust.Js.{Value, get, one, canonical_utc}
use tenant_trust.Trust.Rounding.{round_product}
use tenant_trust.Trust.Smoothing.Decode.{
  TemporalConfiguration, TemporalState, Observation, define_temporal_trust_configuration,
  normalize_previous_state, normalize_observation,
}

-- `2 ** (-elapsed / halfLife)`, of an elapsed time and a half life in milliseconds: from 1 at 0 down,
-- and one half at the half life.
pub record Exponential : Type 0 where
  pub retention : ℕ → ℕ → ℕ
  pub retention_le : (elapsed half_life : ℕ) → retention elapsed half_life ≤ one
  pub retention_antitone :
      (earlier later half_life : ℕ)
      → earlier ≤ later
      → retention later half_life ≤ retention earlier half_life

pub data Phase : Type 0 where
  initialized updated cold_start held decayed : Phase

pub data ObservationStatus : Type 0 where
  missing stale fresh : ObservationStatus

-- `calculation`. The times are in milliseconds.
pub data Calculation : Type 0 where
  ewa : (prior observation alpha retained_weight observation_age : ℕ) → Calculation
  initial : (initial_score : ℕ) (observation_age : Option ℕ) → Calculation
  hold : (age_since_fresh stale_after : ℕ) (observation_age : Option ℕ) → Calculation
  exponential_decay :
      (baseline anchor age_since_fresh elapsed half_life retention_factor : ℕ)
      (observation_age : Option ℕ)
      → Calculation

pub record Smoothed : Type 0 where
  pub score : ℕ
  pub phase : Phase
  pub observation_status : ObservationStatus
  pub evaluated_at : ℕ
  pub previous_score : Option ℕ
  pub observation_score : Option ℕ
  pub temporal_state : TemporalState
  pub calculation : Calculation

-- `staleAfterSeconds`, in milliseconds.
abbrev pub stale_after : TemporalConfiguration → ℕ
stale_after configuration = configuration.stale_after_seconds * 1_000

abbrev pub age_of : Option Observation → ℕ → Option ℕ
age_of none now = none
age_of (some o) now = some (now - o.observed_at)

unfoldable pub status_of : TemporalConfiguration → Option Observation → ℕ → ObservationStatus
status_of configuration none now = missing
status_of configuration (some o) now =
    if ltb (stale_after configuration) (now - o.observed_at) then stale else fresh

abbrev pub last_fresh : Option TemporalState → Option ℕ
last_fresh none = none
last_fresh (some s) = s.last_fresh_observed_at

abbrev pub previous_score_of : Option TemporalState → Option ℕ
previous_score_of none = none
previous_score_of (some s) = some s.score

abbrev pub observation_score_of : Option Observation → Option ℕ
observation_score_of none = none
observation_score_of (some o) = some o.score

-- `previousState?.score ?? configuration.initialScore`.
abbrev pub prior_score : TemporalConfiguration → Option TemporalState → ℕ
prior_score configuration none = configuration.initial_score
prior_score configuration (some s) = s.score

-- `freezeState`.
abbrev pub freeze_state : ℕ → ℕ → Option ℕ → ℕ → TemporalState
freeze_state score anchor fresh_at now = record {
  score = score;
  anchor_score = anchor;
  last_fresh_observed_at = fresh_at;
  last_evaluated_at = now;
}

-- alpha * observation + (1 - alpha) * prior, rounded.
unfoldable pub average : ℕ → ℕ → ℕ → ℕ
average alpha observation prior = round_product (alpha * observation + (one - alpha) * prior)

-- `observedAt <= lastFreshObservedAt`.
abbrev pub is_not_newer : ℕ → Option ℕ → Bool
is_not_newer observed_at none = false
is_not_newer observed_at (some t) = leb observed_at t

abbrev pub is_some {ℓ} : {A : Type ℓ} → Option A → Bool
is_some none = false
is_some (some _) = true

-- The branch of a fresh observation.
unfoldable pub advance_fresh :
    TemporalConfiguration → Option TemporalState → Observation → ℕ → Result Smoothed
unfolding average
advance_fresh configuration previous o now = do
  fail_if (is_not_newer o.observed_at (last_fresh previous)) "TRUST_OBSERVATION_NOT_NEWER"
  let prior = prior_score configuration previous
  let score = average configuration.smoothing_alpha o.score prior
  ok (record {
    score = score;
    phase = if is_some (last_fresh previous) then updated else initialized;
    observation_status = fresh;
    evaluated_at = now;
    previous_score = previous_score_of previous;
    observation_score = some o.score;
    temporal_state = freeze_state score score (some o.observed_at) now;
    calculation =
        ewa prior o.score configuration.smoothing_alpha (one - configuration.smoothing_alpha)
          (now - o.observed_at);
  })

-- The branch of a subject with no fresh observation so far.
unfoldable pub cold_started :
    TemporalConfiguration → Option TemporalState → Option Observation → ℕ → Smoothed
cold_started configuration previous o now = record {
  score = configuration.initial_score;
  phase = cold_start;
  observation_status = status_of configuration o now;
  evaluated_at = now;
  previous_score = previous_score_of previous;
  observation_score = observation_score_of o;
  temporal_state = freeze_state configuration.initial_score configuration.initial_score none now;
  calculation = initial configuration.initial_score (age_of o now);
}

-- Holding the score until the last fresh observation is stale.
unfoldable pub held_result :
    TemporalConfiguration → TemporalState → ℕ → Option Observation → ℕ → Smoothed
held_result configuration s fresh_at o now = record {
  score = s.score;
  phase = held;
  observation_status = status_of configuration o now;
  evaluated_at = now;
  previous_score = some s.score;
  observation_score = observation_score_of o;
  temporal_state = freeze_state s.score s.anchor_score (some fresh_at) now;
  calculation = hold (now - fresh_at) (stale_after configuration) (age_of o now);
}

abbrev pub minimum : ℕ → ℕ → ℕ
minimum a b = if leb a b then a else b

-- `baselineScore`.
abbrev pub baseline_score : TemporalConfiguration → TemporalState → ℕ
baseline_score configuration s = minimum configuration.initial_score s.anchor_score

module _ (exponential : Exponential) where
  -- baseline + (anchor - baseline) * retention, rounded.
  unfoldable pub decayed_score : TemporalConfiguration → TemporalState → ℕ → ℕ
  decayed_score configuration s elapsed =
      let baseline = baseline_score configuration s in
      round_product (
        baseline * one
        + (s.anchor_score - baseline) * exponential.retention elapsed (stale_after configuration))

  -- Decay towards the baseline, from the score of the last fresh observation.
  unfoldable pub decayed_result :
      TemporalConfiguration → TemporalState → ℕ → Option Observation → ℕ → Smoothed
  unfolding decayed_score
  decayed_result configuration s fresh_at o now =
      let elapsed = (now - fresh_at) - stale_after configuration in
      let score = decayed_score configuration s elapsed in
      record {
        score = score;
        phase = decayed;
        observation_status = status_of configuration o now;
        evaluated_at = now;
        previous_score = some s.score;
        observation_score = observation_score_of o;
        temporal_state = freeze_state score s.anchor_score (some fresh_at) now;
        calculation =
            exponential_decay (baseline_score configuration s) s.anchor_score (now - fresh_at)
              elapsed (stale_after configuration)
              (exponential.retention elapsed (stale_after configuration)) (age_of o now);
      }

  -- What is done with no fresh observation: `elapsedBeyondStaleSeconds` is 0 where the last one is not
  -- yet stale.
  unfoldable pub advance_without :
      TemporalConfiguration → Option TemporalState → Option Observation → ℕ → Smoothed
  unfolding cold_started held_result decayed_result
  advance_without configuration none o now = cold_started configuration none o now
  advance_without configuration (some s) o now = elim s.last_fresh_observed_at [
    | none ↦ cold_started configuration (some s) o now
    | some t ↦
        if (now - t) - stale_after configuration == 0
        then held_result configuration s t o now
        else decayed_result configuration s t o now
  ]

  -- By the status of an observation.
  unfoldable pub advance_by :
      ObservationStatus
      → TemporalConfiguration
      → Option TemporalState
      → Observation
      → ℕ
      → Result Smoothed
  unfolding advance_fresh advance_without
  advance_by fresh configuration previous o now = advance_fresh configuration previous o now
  advance_by _ configuration previous o now =
      ok (advance_without configuration previous (some o) now)

  -- The part of advanceSmoothedTrustScore behind the checks of its arguments.
  unfoldable pub advance :
      TemporalConfiguration → Option TemporalState → Option Observation → ℕ → Result Smoothed
  unfolding advance_by status_of
  advance configuration previous none now = ok (advance_without configuration previous none now)
  advance configuration previous (some o) now =
      advance_by (status_of configuration (some o) now) configuration previous o now

  unfoldable pub advance_smoothed_trust_score : Value → Result Smoothed
  advance_smoothed_trust_score input = do
    now ← or_fail (canonical_utc (get input "evaluatedAt")) "EVALUATION_TIME_INVALID"
    configuration ← define_temporal_trust_configuration (get input "configuration")
    previous ← normalize_previous_state (get input "previousState") configuration now
    o ← normalize_observation (get input "observation") now
    advance configuration previous o now
