-- ===== src/Policy/Tests.antt =====
-- The prototype of the policy data for one tenant, and action rules whose actions are arrays.
use tenant_trust.Access.Context.{is_text}
use tenant_trust.Common.{◌≡◌, refl, String, List, [], ◌∷◌, some, true, false, ok, err, sort}
use tenant_trust.Js.{
  Value, boolean, string, array, object, field, end, array_of, matches_id, get, is_plain_object,
  keys, safe_integer, valid_score,
}
use tenant_trust.Trust.Controls.Decode.{identifier}
use tenant_trust.Policy.Rules.{
  ActionRule, validate_action_rules, require_exact_fields, definition_of, validate_roles,
}
use tenant_trust.Policy.Configuration.{
  PolicyConfiguration, validate_configuration, configuration_of, score_value, object_of, text_array,
  validate_adaptive_authorization_policy_data, prototype_data, create_slide14_prototype_policy_data,
  is_profile_id,
}
use tenant_trust.Policy.Guarantees.{
  IsPolicy, validate_adaptive_authorization_policy_data-IsPolicy,
  create_slide14_prototype_policy_data-ok,
}

abbrev alpha : String
alpha = "tnt_00000000-0000-4000-8000-000000000001"

abbrev input : Value
input = object true (field "tenantId" (string alpha) end)

alpha_read : identifier "tnt_" (string alpha) ≡ some alpha
unfolding matches_id
alpha_read = refl

create_slide14_prototype_policy_data-ok_example :
    create_slide14_prototype_policy_data input ≡ ok (prototype_data alpha)
unfolding get matches_id
create_slide14_prototype_policy_data-ok_example =
    create_slide14_prototype_policy_data-ok input alpha alpha_read

alpha_accepted :
    validate_adaptive_authorization_policy_data (prototype_data alpha) (string alpha)
    ≡ ok (prototype_data alpha)
unfolding validate_adaptive_authorization_policy_data require_exact_fields is_plain_object sort keys
    get matches_id is_text is_profile_id safe_integer valid_score validate_action_rules
    definition_of validate_roles
alpha_accepted = refl

validate_adaptive_authorization_policy_data-IsPolicy_example :
    (prototype_data alpha ≡ prototype_data alpha)
    × (tenant : String) × (identifier "tnt_" (string alpha) ≡ some tenant)
    × (c : PolicyConfiguration) × (validate_configuration
          (configuration_of (prototype_data alpha))
          (string alpha)
        ≡ ok c)
    × IsPolicy (configuration_of (prototype_data alpha)) tenant c
validate_adaptive_authorization_policy_data-IsPolicy_example =
    validate_adaptive_authorization_policy_data-IsPolicy (prototype_data alpha) (string alpha)
      (prototype_data alpha) alpha_accepted

other_tenant_refused :
    validate_adaptive_authorization_policy_data
      (prototype_data alpha)
      (string "tnt_00000000-0000-4000-8000-000000000002")
    ≡ err "POLICY_CONFIGURATION_INVALID"
unfolding validate_adaptive_authorization_policy_data require_exact_fields is_plain_object sort keys
    get matches_id is_text
other_tenant_refused = refl

-- A rule whose action is an array of one text.
abbrev array_rule : Value
array_rule = object_of (
    ("action", text_array ("profile:read" ∷ []))
    ∷ ("sensitivity", string "confidential")
    ∷ ("minimumScore", score_value 55)
    ∷ ("roles", text_array ("tenant-member" ∷ []))
    ∷ ("stepUpRequired", boolean false)
    ∷ [])

abbrev accepted_rule : ActionRule
accepted_rule = record {
  action = text_array ("profile:read" ∷ []);
  minimum_score = 55_000_000_000_000;
  roles = "tenant-member" ∷ [];
  step_up_required = false;
}

abbrev eight {ℓ} : {A : Type ℓ} → A → List A
eight a = a ∷ a ∷ a ∷ a ∷ a ∷ a ∷ a ∷ a ∷ []

-- Eight such rules for one action are accepted, and seven actions have no rule.
repeated_array_accepted :
    validate_action_rules (array (array_of (eight array_rule))) ≡ ok (eight accepted_rule)
unfolding validate_action_rules require_exact_fields is_plain_object sort keys definition_of get
    is_text valid_score validate_roles
repeated_array_accepted = refl
