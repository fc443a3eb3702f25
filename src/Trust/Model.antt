-- ===== src/Trust/Model.antt =====
-- packages/trust-model/src/index.mjs: the five components of trust, their weights, and the checks of
-- a set of components and of a configuration. An object that is keyed by the five components is the
-- list of its values in the order of TRUST_COMPONENT_IDS.
pub mod Version
pub mod Accepted
use tenant_trust.Common.{
  ℕ, ◌+◌, ◌-◌, String, List, [], ◌∷◌, Option, none, some, Bool, true, false, not, ◌&&◌, ◌||◌, ltb,
  leb, ◌==◌, if◌then◌else◌, Result, ok, err, ◌>>=◌, ◌>>◌, guard, fail_if, or_fail, includes, length,
  all, map_result, ◌≡◌, refl,
}
use tenant_trust.Common.Int.{pos}
use tenant_trust.Js.{
  Value, undefined, object, field, end, number, finite, string, one, points, get, keys, as_text,
  is_plain_object, number_in,
}
use Version.{is_model_version}

-- TRUST_COMPONENT_IDS.
abbrev pub trust_component_ids : List String
trust_component_ids = "identity" ∷ "device" ∷ "behaviour" ∷ "certificate" ∷ "compliance" ∷ []

-- INITIAL_TRUST_MODEL_CONFIGURATION, with INITIAL_TRUST_WEIGHTS.
abbrev pub initial_trust_model_configuration : Value
initial_trust_model_configuration = object true (
    field "modelVersion" (string "1.0.0") (
      field "weights"
        (object true (
          field "identity" (number (finite (pos 200_000_000_000))) (
            field "device" (number (finite (pos 250_000_000_000))) (
              field "behaviour" (number (finite (pos 250_000_000_000))) (
                field "certificate" (number (finite (pos 150_000_000_000)))
                  (field "compliance" (number (finite (pos 150_000_000_000))) end))))))
        end))

pub record Configuration : Type 0 where
  pub model_version : String
  pub weights : List ℕ

-- `requireExactComponentKeys`.
unfoldable pub require_exact_component_keys : Value → String → Result (Unit {0})
require_exact_component_keys value code = do
  guard (is_plain_object value) code
  fail_if
      (not (length (keys value) == length trust_component_ids)
        || not (all (includes trust_component_ids) (keys value)))
      code

-- The loop over the components, with the bounds and the reason code of one value.
unfoldable pub component_values : ℕ → String → Value → List String → Result (List ℕ)
unfolding map_result
component_values maximum code value ids =
    map_result (λ (id : String). or_fail (number_in 0 maximum (get value id)) code) ids

unfoldable pub define_normalized_components : Value → Result (List ℕ)
unfolding component_values require_exact_component_keys
define_normalized_components values = do
  require_exact_component_keys values "NORMALIZED_COMPONENTS_INVALID"
  component_values (points 100) "NORMALIZED_COMPONENT_VALUE_INVALID" values trust_component_ids

abbrev pub sum : List ℕ → ℕ
sum [] = 0
sum (x ∷ xs) = x + sum xs

-- WEIGHT_TOTAL_TOLERANCE, 1e-12.
abbrev pub weight_total_tolerance : ℕ
weight_total_tolerance = 1

-- `Math.abs(total - 1)`.
abbrev pub distance : ℕ → ℕ → ℕ
distance a b = (a - b) + (b - a)

-- A configuration that is left out is the initial one.
abbrev pub or_initial : Value → Value
or_initial undefined = initial_trust_model_configuration
or_initial value = value

-- The version, and then the weights with their total.
unfoldable pub define_model_version : Value → Result String
define_model_version value = do
  model_version ← or_fail (as_text value) "MODEL_VERSION_INVALID"
  guard (is_model_version model_version) "MODEL_VERSION_INVALID"
  ok model_version

unfoldable pub define_weights : Value → Result (List ℕ)
unfolding component_values require_exact_component_keys
define_weights value = do
  require_exact_component_keys value "TRUST_WEIGHTS_INVALID"
  weights ← component_values one "TRUST_WEIGHT_INVALID" value trust_component_ids
  fail_if (ltb weight_total_tolerance (distance (sum weights) one)) "TRUST_WEIGHT_TOTAL_INVALID"
  ok weights

-- The keys of a configuration.
unfoldable pub require_configuration_keys : Value → Result (Unit {0})
require_configuration_keys configuration = do
  guard (is_plain_object configuration) "TRUST_MODEL_CONFIGURATION_INVALID"
  fail_if
      (not (length (keys configuration) == 2)
        || not (includes (keys configuration) "modelVersion")
        || not (includes (keys configuration) "weights"))
      "TRUST_MODEL_CONFIGURATION_INVALID"

unfoldable pub define_trust_model_configuration : Value → Result Configuration
unfolding define_weights define_model_version require_configuration_keys
define_trust_model_configuration argument = do
  let configuration = or_initial argument
  require_configuration_keys configuration
  model_version ← define_model_version (get configuration "modelVersion")
  weights ← define_weights (get configuration "weights")
  ok (record { model_version = model_version; weights = weights })
