-- ===== src/Trust/Tests/Scores.antt =====
-- A weighted score of packages/trust-model and services/trust/src/weighted-score.mjs.
use tenant_trust.Trust.Model.Version.{is_model_version}
use tenant_trust.Trust.Score.Decimals.{rounded_number, sum_decimals, multiply_decimal}
use tenant_trust.Common.{ℕ, ◌≤◌, ◌≡◌, refl, List, [], ◌∷◌, ok, true}
use tenant_trust.Common.Int.{pos}
use tenant_trust.Js.{
  Value, object, number, finite, field, end, undefined, points, is_plain_object, keys, get,
}
use tenant_trust.Trust.Model.{
  Configuration, define_normalized_components, define_trust_model_configuration,
}
use tenant_trust.Trust.Score.{weighted_score, WeightedScore, calculate_weighted_trust_score}
use tenant_trust.Trust.Score.Mean.{
  dot, nearest_hundredth, weighted_score-exact, calculate_weighted_trust_score_lem,
}

abbrev components : List ℕ
components =
    80_000_000_000_000 ∷ 70_500_000_000_000 ∷ 61_000_000_000_000 ∷ 90_000_000_000_000
    ∷ 33_330_000_000_000 ∷ []

abbrev number_of : ℕ → Value
number_of n = number (finite (pos n))

abbrev component_object : Value
component_object = object true (
    field "identity" (number_of 80_000_000_000_000) (
      field "device" (number_of 70_500_000_000_000) (
        field "behaviour" (number_of 61_000_000_000_000) (
          field "certificate" (number_of 90_000_000_000_000)
            (field "compliance" (number_of 33_330_000_000_000) end)))))

abbrev initial : Configuration
initial = record {
  model_version = "1.0.0";
  weights =
      200_000_000_000 ∷ 250_000_000_000 ∷ 250_000_000_000 ∷ 150_000_000_000 ∷ 150_000_000_000 ∷ [];
}

components_accepted : define_normalized_components component_object ≡ ok components
unfolding define_normalized_components is_plain_object keys get
components_accepted = refl

initial_accepted : define_trust_model_configuration undefined ≡ ok initial
unfolding define_trust_model_configuration is_plain_object keys get is_model_version
initial_accepted = refl

-- 16 + 17.625 + 15.25 + 13.5 + 4.9995 is 67.3745.
one_score : weighted_score components initial.weights ≡ 67_370_000_000_000
unfolding weighted_score rounded_number sum_decimals multiply_decimal
one_score = refl

weighted_score-exact_example :
    weighted_score components initial.weights ≡ nearest_hundredth (dot components initial.weights)
weighted_score-exact_example = weighted_score-exact components initial.weights

calculate_weighted_trust_score_lem_example :
    (r : WeightedScore) × (calculate_weighted_trust_score component_object undefined ≡ ok r)
    × (r.score ≡ nearest_hundredth (dot components initial.weights))
    × (r.score ≤ points 100)
    × (r.components ≡ components)
    × (r.weights ≡ initial.weights)
calculate_weighted_trust_score_lem_example =
    calculate_weighted_trust_score_lem component_object undefined components_accepted
      initial_accepted
