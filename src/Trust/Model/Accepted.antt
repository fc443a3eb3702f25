-- ===== src/Trust/Model/Accepted.antt =====
-- What the checks of packages/trust-model accept.
use tenant_trust.Common.{
  ℕ, ◌+◌, ◌≤◌, ◌≡◌, String, List, false, arith, length, All, ok, >>=-eq-ok, or_fail, map_result-All,
  fail_if, fail_if-eq-ok, ltb,
}
use tenant_trust.Js.{Value, one, points, get, number_in}
use tenant_trust.Trust.Model.{
  Configuration, trust_component_ids, define_normalized_components,
  define_trust_model_configuration, component_values, require_exact_component_keys, sum, or_initial,
  distance, define_weights, define_model_version, require_configuration_keys,
  weight_total_tolerance,
}

-- Five values from 0 to 100.
pub record IsNormalized (components : List ℕ) : Type 0 where
  pub five : length components ≡ 5
  pub in_range : All (λ c. c ≤ points 100) components

-- Five weights from 0 to 1 whose sum is 1, up to 1e-12.
pub record IsWeighting (weights : List ℕ) : Type 0 where
  pub five : length weights ≡ 5
  pub in_range : All (λ w. w ≤ one) weights
  pub at_most_one : sum weights ≤ one + 1
  pub at_least_one : one ≤ sum weights + 1

number_accepted :
    (maximum : ℕ) (code : String) (v : Value) (n : ℕ)
    → or_fail (number_in 0 maximum v) code ≡ ok n
    → n ≤ maximum
number_accepted maximum code v n h = ground arith

component_values-All :
    (maximum : ℕ) (code : String) (v : Value) (ids : List String) {ns : List ℕ}
    → component_values maximum code v ids ≡ ok ns
    → All (λ n. n ≤ maximum) ns × (length ns ≡ length ids)
unfolding component_values
component_values-All maximum code v ids h =
    map_result-All (λ n. n ≤ maximum) _ (λ id n e. number_accepted maximum code (get v id) n e) ids
      h

pub define_normalized_components-eq-ok :
    (v : Value) {components : List ℕ}
    → define_normalized_components v ≡ ok components
    → IsNormalized components
unfolding define_normalized_components
define_normalized_components-eq-ok v h =
    let (_, _, h1) =
      >>=-eq-ok (require_exact_component_keys v "NORMALIZED_COMPONENTS_INVALID") _ h in
    let (bounds, five) =
      component_values-All (points 100) "NORMALIZED_COMPONENT_VALUE_INVALID" v trust_component_ids
        h1 in
    record { five = five; in_range = bounds }

near_one :
    (total : ℕ)
    → ltb weight_total_tolerance (distance total one) ≡ false
    → (total ≤ one + 1) × (one ≤ total + 1)
near_one total h = ground arith

define_weights-eq-ok :
    (v : Value) {weights : List ℕ} → define_weights v ≡ ok weights → IsWeighting weights
unfolding define_weights
define_weights-eq-ok v {weights} h =
    let (_, _, h1) = >>=-eq-ok (require_exact_component_keys v "TRUST_WEIGHTS_INVALID") _ h in
    let (read, accepted, h2) =
      >>=-eq-ok (component_values one "TRUST_WEIGHT_INVALID" v trust_component_ids) _ h1 in
    let (_, near, h3) =
      >>=-eq-ok
        (fail_if (ltb weight_total_tolerance (distance (sum read) one))
          "TRUST_WEIGHT_TOTAL_INVALID")
        _ h2 in
    let (bounds, five) =
      component_values-All one "TRUST_WEIGHT_INVALID" v trust_component_ids accepted in
    let total = fail_if-eq-ok (ltb weight_total_tolerance (distance (sum read) one)) _ near in
    let same : read ≡ weights = cc in
    rw (← same) (record {
      five = five;
      in_range = bounds;
      at_most_one = (near_one (sum read) total).0;
      at_least_one = (near_one (sum read) total).1;
    })

-- A configuration that is accepted has five weights from 0 to 1, whose sum is 1 up to the tolerance
-- of 1e-12.
pub define_trust_model_configuration-eq-ok :
    (v : Value) {c : Configuration}
    → define_trust_model_configuration v ≡ ok c
    → IsWeighting c.weights
unfolding define_trust_model_configuration
define_trust_model_configuration-eq-ok v {c} h =
    let configuration = or_initial v in
    let (_, _, h1) = >>=-eq-ok (require_configuration_keys configuration) _ h in
    let (version, _, h2) =
      >>=-eq-ok (define_model_version (get configuration "modelVersion")) _ h1 in
    let (weights, accepted, h3) = >>=-eq-ok (define_weights (get configuration "weights")) _ h2 in
    let same : weights ≡ c.weights = cc in
    rw (← same) (define_weights-eq-ok (get configuration "weights") accepted)
