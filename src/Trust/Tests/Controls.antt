-- ===== src/Trust/Tests/Controls.antt =====
-- Evaluations of services/trust/src/trust-transition-controls.mjs.
use tenant_trust.Common.{
  ◌+◌, ◌≤◌, ◌<◌, ◌≡◌, refl, ◌↔◌, List, [], ◌∷◌, none, true, arith, ok, length, String, sort,
}
use tenant_trust.Common.Int.{pos}
use tenant_trust.Js.{
  Value, object, string, number, finite, array, nil, cons, field, end, null, points, has_exact_keys,
  get, valid_score, member, safe_integer, matches_id,
}
use tenant_trust.Trust.Rounding.{round_score}
use tenant_trust.Trust.Controls.Decode.{
  low, medium, high, index_of, ControlState, Source, CriticalEvidence, is_control_state,
  normalize_previous_state, normalize_source, normalize_critical_evidence,
}
use tenant_trust.Trust.Controls.Apply.{
  ControlResult, bounded_score, plain_result, apply_trust_transition_controls, control,
}
use tenant_trust.Trust.Controls.Invariant.{
  IsControlled, apply-IsControlled, state_value, normalize_previous_state-state_value,
}
use tenant_trust.Trust.Controls.Bounds.{cap_of, bounded_score_capped}
use tenant_trust.Trust.Controls.Recovery.{
  Qualifies, plain_result-recovered, Evaluation, evaluate, AllDecoded, high_needs_evaluations,
}

-- A subject at 40 points in the low band that has qualified once, and a source with half of the
-- influence that another source corroborates.
abbrev once : ControlState
once = record { score = points 46; band = low; recovery_streak = 1 }

abbrev first_source : String
first_source = "src_00000000-0000-4000-8000-000000000001"

abbrev second_source : String
second_source = "src_00000000-0000-4000-8000-000000000002"

abbrev pair : Source
pair = record {
  source_id = first_source;
  maximum_influence = 500_000_000_000;
  corroborating_source_ids = second_source ∷ [];
  distinct_source_ids = first_source ∷ second_source ∷ [];
}

abbrev compromise : CriticalEvidence
compromise = record {
  kind = string "identity-compromised";
  component_id = "identity";
  rule = record { component_id = "identity"; score_ceiling = points 20; forced_band = low };
}

once-IsControlled : IsControlled once
unfolding is_control_state
once-IsControlled = ground arith

bounded_score_capped_example :
    (bounded_score once (points 99) pair ≤ points 46 + cap_of pair)
    × (points 46 ≤ bounded_score once (points 99) pair + cap_of pair)
bounded_score_capped_example = bounded_score_capped once (points 99) pair refl

capped_at_half : bounded_score once (points 99) pair ≡ points 96
unfolding bounded_score round_score
capped_at_half = refl

plain_result-recovered_example :
    (0 < index_of (plain_result once pair (points 50) (points 50)).band)
    ↔ ((once.recovery_streak ≡ 1) × Qualifies low (points 50) pair)
plain_result-recovered_example =
    plain_result-recovered once pair (points 50) (points 50) once-IsControlled.consistent

-- Four good evaluations bring a subject from the low band to the high one.
abbrev start : ControlState
start = record { score = points 10; band = low; recovery_streak = 0 }

abbrev good : Evaluation
good = record { candidate = points 90; source = pair; evidence = none }

abbrev good_evaluations : List Evaluation
good_evaluations = good ∷ good ∷ good ∷ good ∷ []

start-IsControlled : IsControlled start
unfolding is_control_state
start-IsControlled = ground arith

good_evaluations-AllDecoded : AllDecoded good_evaluations
good_evaluations-AllDecoded = ground arith

reaches_high : (evaluate start good_evaluations).band ≡ high
unfolding evaluate control bounded_score round_score
reaches_high = refl

high_needs_evaluations_example : 4 ≤ length good_evaluations
high_needs_evaluations_example =
    high_needs_evaluations start good_evaluations start-IsControlled good_evaluations-AllDecoded
      refl refl reaches_high

normalize_previous_state-state_value_example : normalize_previous_state (state_value once) ≡ ok once
normalize_previous_state-state_value_example =
    normalize_previous_state-state_value once once-IsControlled

-- The second qualifying evaluation in a row.
abbrev evaluation : Value
evaluation = object true (
    field "previousState" (state_value once) (
      field "candidateScore" (number (finite (pos (points 50)))) (
        field "source"
          (object true (
            field "sourceId" (string first_source) (
              field "maximumInfluence" (number (finite (pos 500_000_000_000)))
                (field "corroboratingSourceIds" (array (cons (string second_source) nil)) end))))
          (field "criticalEvidence" null end))))

abbrev evaluated : ControlResult
evaluated = plain_result once pair (points 50) (points 50)

evaluation_run : apply_trust_transition_controls evaluation ≡ ok evaluated
unfolding apply_trust_transition_controls plain_result normalize_previous_state has_exact_keys get
    valid_score member safe_integer is_control_state normalize_source matches_id
    normalize_critical_evidence control bounded_score round_score sort
evaluation_run = refl

recovers_to_medium : evaluated.band ≡ medium
unfolding plain_result
recovers_to_medium = refl

apply-IsControlled_example : IsControlled evaluated.state
apply-IsControlled_example = apply-IsControlled evaluation evaluation_run
