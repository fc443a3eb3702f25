-- ===== src/Trust/Score.antt =====
-- services/trust/src/weighted-score.mjs: the weighted arithmetic mean in exact decimals. The constant
-- fields method, scoreRange, normalization and rounding of the result are left out.
pub mod Decimals
pub mod Exact
pub mod Mean
use tenant_trust.Common.{ℕ, ◌*◌, String, List, [], ◌∷◌, Bool, ltb, Result, ok, ◌>>=◌, ◌>>◌, fail_if}
use tenant_trust.Js.{Value, points}
use tenant_trust.Trust.Model.{
  Configuration, define_normalized_components, define_trust_model_configuration,
}
use Decimals.{Decimal, multiply_decimal, sum_decimals, rounded_number}

-- The contribution of one component.
pub record Contribution : Type 0 where
  pub normalized_value : ℕ
  pub weight : ℕ
  pub weighted_contribution : ℕ

pub record WeightedScore : Type 0 where
  pub model_version : String
  pub score : ℕ
  pub components : List ℕ
  pub weights : List ℕ
  pub contributions : List Contribution

-- `exactContributions`: the values and the weights, component by component.
unfoldable pub exact_contributions : List ℕ → List ℕ → List Decimal
exact_contributions (c ∷ cs) (w ∷ ws) = multiply_decimal c w ∷ exact_contributions cs ws
exact_contributions _ _ = []

-- `contributions`, rounded to WEIGHTED_SCORE_ROUNDING.contributionDecimalPlaces.
unfoldable pub contributions : List ℕ → List ℕ → List Contribution
contributions (c ∷ cs) (w ∷ ws) =
    record {
      normalized_value = c;
      weight = w;
      weighted_contribution = rounded_number (multiply_decimal c w) 6;
    }
    ∷ contributions cs ws
contributions _ _ = []

-- The score of components and weights that are accepted, to scoreDecimalPlaces.
unfoldable pub weighted_score : List ℕ → List ℕ → ℕ
unfolding exact_contributions
weighted_score components weights =
    rounded_number (sum_decimals (exact_contributions components weights)) 2

-- calculateWeightedTrustScore.
unfoldable pub calculate_weighted_trust_score : Value → Value → Result WeightedScore
calculate_weighted_trust_score component_values configuration = do
  components ← define_normalized_components component_values
  model ← define_trust_model_configuration configuration
  let score = weighted_score components model.weights
  fail_if (ltb (points 100) score) "WEIGHTED_SCORE_OUTSIDE_RANGE"
  ok (record {
    model_version = model.model_version;
    score = score;
    components = components;
    weights = model.weights;
    contributions = contributions components model.weights;
  })
