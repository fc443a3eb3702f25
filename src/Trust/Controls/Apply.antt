-- ===== src/Trust/Controls/Apply.antt =====
-- trust-transition-controls.mjs: one evaluation. A state machine on bands, with a streak of
-- qualifying evaluations.
use tenant_trust.Common.{
  ℕ, ◌+◌, ◌*◌, String, Option, none, some, Bool, true, false, ◌&&◌, ltb, leb, if◌then◌else◌, Result,
  ok, ◌>>=◌, or_fail, length,
}
use tenant_trust.Common.Int.{ℤ, pos, pos_part, ◌+ℤ◌, ◌-ℤ◌, min_ℤ, max_ℤ, abs, ltb_ℤ}
use tenant_trust.Js.{Value, get, valid_score}
use tenant_trust.Trust.Rounding.{round_score}
use tenant_trust.Trust.Controls.Decode.{
  Band, low, medium, high, index_of, ControlState, Source, CriticalEvidence,
  medium_deterioration_threshold, high_deterioration_threshold, consecutive_qualifying_evaluations,
  distinct_source_count, score_range, recovery_threshold, is_high, classify_base_band,
  normalize_previous_state, normalize_source, normalize_critical_evidence,
}

pub data Transition : Type 0 where
  held deteriorated recovered critical_override : Transition

pub record SourceInfluence : Type 0 where
  pub source_id : String
  pub maximum_influence : ℕ
  pub maximum_delta_points : ℤ
  pub requested_delta : ℤ
  pub applied_delta : ℤ
  pub capped : Bool
  pub bypassed_for_critical_deterioration : Bool

pub record Recovery : Type 0 where
  pub eligible : Bool
  pub distinct_source_count : ℕ
  pub required_distinct_source_count : ℕ
  pub qualifying_streak : ℕ
  pub required_qualifying_streak : ℕ

pub record ControlResult : Type 0 where
  pub score : ℕ
  pub band : Band
  pub transition : Transition
  pub recovery_streak : ℕ
  pub state : ControlState
  pub source_influence : SourceInfluence
  pub recovery : Recovery
  pub critical_override : Option CriticalEvidence

-- `deteriorationBand`.
unfoldable pub deterioration_band : Band → ℕ → Band
deterioration_band previous_band score =
    if ltb score medium_deterioration_threshold
    then low
    else if is_high previous_band && ltb score high_deterioration_threshold
    then medium
    else previous_band

-- `nextRecoveryBand`.
unfoldable pub next_recovery_band : Band → Band
next_recovery_band low = medium
next_recovery_band medium = high
next_recovery_band high = high

unfoldable pub initialize_trust_control_state : Value → Result ControlState
initialize_trust_control_state value = do
  score ← or_fail (valid_score value) "INITIAL_CONTROL_SCORE_INVALID"
  ok (record { score = score; band = classify_base_band score; recovery_streak = 0 })

-- The cap of a source in points, and the score that it lets through. A score lies in 0 to 100, so
-- the part below 0 of a bounded score is empty.
unfoldable pub maximum_delta : Source → ℤ
maximum_delta source = round_score (pos (source.maximum_influence * score_range))

unfoldable pub bounded_delta : ControlState → ℕ → Source → ℤ
unfolding maximum_delta ◌-ℤ◌
bounded_delta previous candidate source =
    max_ℤ (pos 0 -ℤ maximum_delta source)
      (min_ℤ (maximum_delta source) (pos candidate -ℤ pos previous.score))

unfoldable pub bounded_score : ControlState → ℕ → Source → ℕ
unfolding bounded_delta ◌+ℤ◌
bounded_score previous candidate source =
    pos_part (round_score (pos previous.score +ℤ bounded_delta previous candidate source))

-- `buildResult`.
unfoldable pub build_result :
    ControlState → Source → ℕ → ℕ → Band → Transition → ℕ → Bool → ControlResult
build_result previous source candidate score band transition recovery_streak recovery_eligible =
    record {
      score = score;
      band = band;
      transition = transition;
      recovery_streak = recovery_streak;
      state = record { score = score; band = band; recovery_streak = recovery_streak };
      source_influence = record {
        source_id = source.source_id;
        maximum_influence = source.maximum_influence;
        maximum_delta_points = maximum_delta source;
        requested_delta = round_score (pos candidate -ℤ pos previous.score);
        applied_delta = round_score (pos score -ℤ pos previous.score);
        capped = ltb_ℤ (maximum_delta source) (pos (abs (pos candidate -ℤ pos previous.score)));
        bypassed_for_critical_deterioration = false;
      };
      recovery = record {
        eligible = recovery_eligible;
        distinct_source_count = length source.distinct_source_ids;
        required_distinct_source_count = distinct_source_count;
        qualifying_streak = recovery_streak;
        required_qualifying_streak = consecutive_qualifying_evaluations;
      };
      critical_override = none;
    }

-- The branch of critical evidence: the cap does not hold, and the score only falls.
unfoldable pub override_score : ControlState → ℕ → CriticalEvidence → ℕ
override_score previous candidate evidence = pos_part (
    round_score
      (min_ℤ (pos previous.score) (min_ℤ (pos candidate) (pos evidence.rule.score_ceiling))))

unfoldable pub critical_result : ControlState → Source → ℕ → CriticalEvidence → ControlResult
unfolding override_score
critical_result previous source candidate evidence =
    let score = override_score previous candidate evidence in
    record {
      score = score;
      band = evidence.rule.forced_band;
      transition = critical_override;
      recovery_streak = 0;
      state = record { score = score; band = evidence.rule.forced_band; recovery_streak = 0 };
      source_influence = record {
        source_id = source.source_id;
        maximum_influence = source.maximum_influence;
        maximum_delta_points = maximum_delta source;
        requested_delta = round_score (pos candidate -ℤ pos previous.score);
        applied_delta = round_score (pos score -ℤ pos previous.score);
        capped = false;
        bypassed_for_critical_deterioration = true;
      };
      recovery = record {
        eligible = false;
        distinct_source_count = length source.distinct_source_ids;
        required_distinct_source_count = distinct_source_count;
        qualifying_streak = 0;
        required_qualifying_streak = consecutive_qualifying_evaluations;
      };
      critical_override = some evidence;
    }

-- `recoveryEligible`.
unfoldable pub recovery_eligible : Band → ℕ → Source → Bool
recovery_eligible band score source = elim (recovery_threshold band) [
  | none ↦ false
  | some threshold ↦
      leb threshold score && leb distinct_source_count (length source.distinct_source_ids)
]

-- The part behind the test of deterioration.
unfoldable pub hold_or_recover : ControlState → Source → ℕ → ℕ → ControlResult
unfolding recovery_eligible next_recovery_band
hold_or_recover previous source candidate score =
    let eligible = recovery_eligible previous.band score source in
    let streak = if eligible then previous.recovery_streak + 1 else 0 in
    let recovers = leb consecutive_qualifying_evaluations streak in
    build_result previous source candidate score
      (if recovers then next_recovery_band previous.band else previous.band)
      (if recovers then recovered else held) (if recovers then 0 else streak) eligible

unfoldable pub plain_result : ControlState → Source → ℕ → ℕ → ControlResult
unfolding deterioration_band hold_or_recover build_result
plain_result previous source candidate score =
    let lower = deterioration_band previous.band score in
    if ltb (index_of lower) (index_of previous.band)
    then build_result previous source candidate score lower deteriorated 0 false
    else hold_or_recover previous source candidate score

-- applyTrustTransitionControls behind the checks of its arguments.
unfoldable pub control : ControlState → ℕ → Source → Option CriticalEvidence → ControlResult
unfolding plain_result critical_result
control previous candidate source (some evidence) =
    critical_result previous source candidate evidence
control previous candidate source none =
    plain_result previous source candidate (bounded_score previous candidate source)

unfoldable pub apply_trust_transition_controls : Value → Result ControlResult
apply_trust_transition_controls input = do
  previous ← normalize_previous_state (get input "previousState")
  candidate ← or_fail (valid_score (get input "candidateScore")) "CANDIDATE_SCORE_INVALID"
  source ← normalize_source (get input "source")
  evidence ← normalize_critical_evidence (get input "criticalEvidence")
  ok (control previous candidate source evidence)
