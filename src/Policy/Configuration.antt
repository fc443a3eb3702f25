-- ===== src/Policy/Configuration.antt =====
-- adaptive-authorization-policy.mjs: validateAdaptiveAuthorizationPolicyData, and the prototype of
-- the policy data.
use tenant_trust.Common.{
  ℕ, String, List, [], ◌∷◌, Option, none, some, Bool, true, false, ◌&&◌, ◌||◌, ◌==◌, leb, ltb,
  Result, ok, ◌>>=◌, ◌>>◌, guard, or_fail, length, codes, all, map, if◌then◌else◌, str_eq,
}
use tenant_trust.Common.Int.{pos}
use tenant_trust.Js.{
  Value, boolean, number, finite, string, array, object, field, Fields, end, array_of, get,
  valid_score, safe_integer, points, as_text,
}
use tenant_trust.Trust.Controls.Decode.{identifier}
use tenant_trust.Access.Context.{is_text}
use tenant_trust.Policy.Rules.{
  ActionDefinition, ActionRule, action_definitions, require_exact_fields, validate_action_rules,
}

pub record ScoreBands : Type 0 where
  pub quarantine_below : ℕ
  pub restricted_below : ℕ
  pub conditional_below : ℕ
  pub maximum : ℕ

unfoldable pub validate_score_bands : Value → Result ScoreBands
validate_score_bands value = do
  require_exact_fields value
      ("conditionalBelow" ∷ "maximum" ∷ "quarantineBelow" ∷ "restrictedBelow" ∷ [])
      "POLICY_SCORE_BANDS_INVALID"
  quarantine_below ←
      or_fail (valid_score (get value "quarantineBelow")) "POLICY_SCORE_BANDS_INVALID"
  restricted_below ←
      or_fail (valid_score (get value "restrictedBelow")) "POLICY_SCORE_BANDS_INVALID"
  conditional_below ←
      or_fail (valid_score (get value "conditionalBelow")) "POLICY_SCORE_BANDS_INVALID"
  maximum ← or_fail (valid_score (get value "maximum")) "POLICY_SCORE_BANDS_INVALID"
  guard
      (ltb 0 quarantine_below
        && ltb quarantine_below restricted_below
        && ltb restricted_below conditional_below
        && ltb conditional_below maximum
        && maximum == points 100)
      "POLICY_SCORE_BANDS_INVALID"
  ok (record {
    quarantine_below = quarantine_below;
    restricted_below = restricted_below;
    conditional_below = conditional_below;
    maximum = maximum;
  })

abbrev is_alphanumeric : ℕ → Bool
is_alphanumeric c = (leb b'a' c && leb c b'z') || (leb b'0' c && leb c b'9')

abbrev is_profile_character : ℕ → Bool
is_profile_character c = is_alphanumeric c || c == b'-'

-- A list whose last element is a letter or a digit.
abbrev ends_alphanumeric : List ℕ → Bool
ends_alphanumeric [] = false
ends_alphanumeric (c ∷ []) = is_alphanumeric c
ends_alphanumeric (c ∷ d ∷ cs) = ends_alphanumeric (d ∷ cs)

abbrev starts_alphanumeric : List ℕ → Bool
starts_alphanumeric [] = false
starts_alphanumeric (c ∷ _) = is_alphanumeric c

-- PROFILE_ID: from 1 to 64 letters, digits and dashes, with no dash at either end.
unfoldable pub is_profile_id : String → Bool
is_profile_id s =
    starts_alphanumeric (codes s)
    && ends_alphanumeric (codes s)
    && all is_profile_character (codes s)
    && leb (length (codes s)) 64

-- An integer between two bounds.
abbrev pub integer_between : ℕ → ℕ → Value → Option ℕ
integer_between low high value = elim (safe_integer value) [
  | none ↦ none
  | some n ↦ if leb low n && leb n high then some n else none
]

-- CONFIGURATION_FIELDS.
abbrev pub configuration_fields : List String
configuration_fields =
    "actionRules" ∷ "calibrationStatus" ∷ "policyProfile" ∷ "quarantineAction" ∷ "schemaVersion"
    ∷ "scoreBands" ∷ "stepUpMaximumAgeSeconds" ∷ "tenantId" ∷ []

pub record PolicyConfiguration : Type 0 where
  pub tenant_id : String
  pub policy_profile : String
  pub step_up_maximum_age_seconds : ℕ
  pub score_bands : ScoreBands
  pub action_rules : List ActionRule

-- The checks behind the fields of a configuration.
unfoldable pub validate_configuration : Value → Value → Result PolicyConfiguration
unfolding validate_score_bands
validate_configuration configuration expected_tenant_id = do
  require_exact_fields configuration configuration_fields "POLICY_CONFIGURATION_INVALID"
  expected ← or_fail (identifier "tnt_" expected_tenant_id) "POLICY_CONFIGURATION_INVALID"
  tenant_id ← or_fail (as_text (get configuration "tenantId")) "POLICY_CONFIGURATION_INVALID"
  guard (str_eq tenant_id expected) "POLICY_CONFIGURATION_INVALID"
  guard (is_text (get configuration "schemaVersion") "1.0.0") "POLICY_CONFIGURATION_INVALID"
  policy_profile ←
      or_fail (as_text (get configuration "policyProfile")) "POLICY_CONFIGURATION_INVALID"
  guard (is_profile_id policy_profile) "POLICY_CONFIGURATION_INVALID"
  guard (is_text (get configuration "calibrationStatus") "unvalidated-prototype-defaults")
      "POLICY_CONFIGURATION_INVALID"
  guard (is_text (get configuration "quarantineAction") "restrict-access")
      "POLICY_CONFIGURATION_INVALID"
  step_up_maximum_age_seconds ←
      or_fail (integer_between 1 900 (get configuration "stepUpMaximumAgeSeconds"))
        "POLICY_CONFIGURATION_INVALID"
  score_bands ← validate_score_bands (get configuration "scoreBands")
  action_rules ← validate_action_rules (get configuration "actionRules")
  ok (record {
    tenant_id = tenant_id;
    policy_profile = policy_profile;
    step_up_maximum_age_seconds = step_up_maximum_age_seconds;
    score_bands = score_bands;
    action_rules = action_rules;
  })

-- `data.tenant_trust_policy.authorization.configuration`.
abbrev pub configuration_of : Value → Value
configuration_of value = get (get (get value "tenant_trust_policy") "authorization") "configuration"

-- The data is returned as a copy of the argument.
unfoldable pub validate_adaptive_authorization_policy_data : Value → Value → Result Value
unfolding validate_configuration
validate_adaptive_authorization_policy_data value expected_tenant_id = do
  require_exact_fields value ("tenant_trust_policy" ∷ []) "POLICY_DATA_INVALID"
  let root = get value "tenant_trust_policy"
  require_exact_fields root ("authorization" ∷ []) "POLICY_DATA_INVALID"
  let authorization = get root "authorization"
  require_exact_fields authorization ("configuration" ∷ []) "POLICY_DATA_INVALID"
  validate_configuration (get authorization "configuration") expected_tenant_id >>= λ _. ok value

-- A number of points, and an object with the fields of a list.
abbrev pub score_value : ℕ → Value
score_value n = number (finite (pos (points n)))

abbrev fields_of : List (String × Value) → Fields
fields_of [] = end
fields_of ((k, v) ∷ rest) = field k v (fields_of rest)

abbrev pub object_of : List (String × Value) → Value
object_of entries = object true (fields_of entries)

abbrev pub text_array : List String → Value
text_array texts = array (array_of (map string texts))

-- ACTION_DEFINITIONS with DEFAULT_MINIMUM_SCORES: the rules of the prototype.
abbrev pub default_minimum_scores : List ℕ
default_minimum_scores = 55 ∷ 55 ∷ 65 ∷ 65 ∷ 80 ∷ 80 ∷ 80 ∷ 90 ∷ []

abbrev pub prototype_rules : List (String × ActionDefinition) → List ℕ → List Value
prototype_rules ((action, definition) ∷ definitions) (score ∷ scores) =
    object_of (
      ("action", string action)
      ∷ ("sensitivity", string definition.sensitivity)
      ∷ ("minimumScore", score_value score)
      ∷ ("roles", text_array definition.allowed_roles)
      ∷ ("stepUpRequired", boolean definition.step_up_required)
      ∷ [])
    ∷ prototype_rules definitions scores
prototype_rules _ _ = []

abbrev pub prototype_data : String → Value
prototype_data tenant_id = object_of (
    (
      "tenant_trust_policy",
      object_of (
          (
            "authorization",
            object_of (
                (
                  "configuration",
                  object_of (
                      ("schemaVersion", string "1.0.0")
                      ∷ ("policyProfile", string "slide-14-prototype-v1")
                      ∷ ("calibrationStatus", string "unvalidated-prototype-defaults")
                      ∷ ("tenantId", string tenant_id)
                      ∷ (
                        "scoreBands",
                        object_of (
                            ("quarantineBelow", score_value 50)
                            ∷ ("restrictedBelow", score_value 65)
                            ∷ ("conditionalBelow", score_value 80)
                            ∷ ("maximum", score_value 100)
                            ∷ []),
                      )
                      ∷ (
                        "actionRules",
                        array
                            (array_of (prototype_rules action_definitions default_minimum_scores)),
                      )
                      ∷ ("stepUpMaximumAgeSeconds", score_value 300)
                      ∷ ("quarantineAction", string "restrict-access")
                      ∷ []),
                )
                ∷ []),
          )
          ∷ []),
    )
    ∷ [])

unfoldable pub create_slide14_prototype_policy_data : Value → Result Value
unfolding validate_adaptive_authorization_policy_data
create_slide14_prototype_policy_data input = do
  tenant_id ← or_fail (identifier "tnt_" (get input "tenantId")) "POLICY_TENANT_INVALID"
  validate_adaptive_authorization_policy_data (prototype_data tenant_id) (string tenant_id)
