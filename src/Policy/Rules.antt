-- ===== src/Policy/Rules.antt =====
-- adaptive-authorization-policy.mjs: the actions with their definitions, and validateActionRules.
use tenant_trust.Common.{
  ℕ, String, List, [], ◌∷◌, Option, none, some, Bool, true, false, not, ◌&&◌, ◌==◌, leb, str_eq,
  Result, ok, ◌>>=◌, ◌>>◌, guard, fail_if, or_fail, includes, distinct, sort, length,
}
use tenant_trust.Js.{
  Value, string, array, cons, nil, get, keys, is_plain_object, as_array, as_boolean, valid_score,
  member_named,
}
use tenant_trust.Access.Context.{is_text}

pub record ActionDefinition : Type 0 where
  pub sensitivity : String
  pub allowed_roles : List String
  pub step_up_required : Bool

abbrev any_role : List String
any_role = "tenant-member" ∷ "tenant-admin" ∷ []

abbrev admin_role : List String
admin_role = "tenant-admin" ∷ []

abbrev definition : String → List String → Bool → ActionDefinition
definition sensitivity allowed_roles step_up_required = record {
  sensitivity = sensitivity;
  allowed_roles = allowed_roles;
  step_up_required = step_up_required;
}

-- ACTION_DEFINITIONS.
abbrev pub action_definitions : List (String × ActionDefinition)
action_definitions =
    ("profile:read", definition "confidential" any_role false)
    ∷ ("record:read", definition "confidential" any_role false)
    ∷ ("record:write", definition "confidential" any_role false)
    ∷ ("record:export", definition "sensitive" admin_role true)
    ∷ ("tenant:admin", definition "critical" admin_role true)
    ∷ ("member:manage", definition "critical" admin_role true)
    ∷ ("certificate:manage", definition "critical" admin_role true)
    ∷ ("admin-key:rotate", definition "critical" admin_role true)
    ∷ []

-- Whether two lists have the same texts at the same places.
abbrev pub same_texts : List String → List String → Bool
same_texts [] [] = true
same_texts (x ∷ xs) (y ∷ ys) = str_eq x y && same_texts xs ys
same_texts _ _ = false

-- `requireExactFields(value, fields, reasonCode)`, with the fields in their order.
unfoldable pub require_exact_fields : Value → List String → String → Result (Unit {0})
require_exact_fields value fields code = do
  guard (is_plain_object value) code
  guard (same_texts (sort (keys value)) fields) code

-- The key that `ACTION_DEFINITIONS[action]` looks up, for a value that may print as a name: a text,
-- or an array of one such value. The names of `Object.prototype` are left out.
unfoldable pub property_key : Value → Option String
property_key (string s) = some s
property_key (array (cons v nil)) = property_key v
property_key _ = none

unfoldable pub definition_of : Value → Option ActionDefinition
unfolding property_key member_named
definition_of value = elim (property_key value) [
  | none ↦ none
  | some key ↦ member_named action_definitions key
]

-- `seen`, a set of values: a text is found again, an array is a new object at every place.
abbrev pub is_seen : Value → List String → Bool
is_seen (string s) seen = includes seen s
is_seen _ seen = false

abbrev pub add_seen : Value → List String → List String
add_seen (string s) seen = s ∷ seen
add_seen _ seen = seen

-- The texts of an array whose every element is one of the allowed texts.
abbrev pub texts_among : List String → List Value → Option (List String)
texts_among allowed [] = some []
texts_among allowed (string s ∷ vs) =
    let rest = texts_among allowed vs in
    elim (includes allowed s) [
      | false ↦ none
      | true ↦ elim rest [ none ↦ none | some ss ↦ some (s ∷ ss) ]
    ]
texts_among allowed (_ ∷ vs) = none

-- `validateRoles`.
unfoldable pub validate_roles : Value → ActionDefinition → Result (List String)
validate_roles value definition = do
  values ← or_fail (as_array value) "POLICY_ACTION_RULE_INVALID"
  guard (leb 1 (length values) && leb (length values) (length definition.allowed_roles))
      "POLICY_ACTION_RULE_INVALID"
  roles ← or_fail (texts_among definition.allowed_roles values) "POLICY_ACTION_RULE_INVALID"
  guard (length (distinct roles) == length roles) "POLICY_ACTION_RULE_INVALID"
  ok roles

pub record ActionRule : Type 0 where
  pub action : Value
  pub minimum_score : ℕ
  pub roles : List String
  pub step_up_required : Bool

-- The body of the loop of validateActionRules.
unfoldable pub validate_action_rule : List String → Value → Result ActionRule
validate_action_rule seen value = do
  require_exact_fields value
      ("action" ∷ "minimumScore" ∷ "roles" ∷ "sensitivity" ∷ "stepUpRequired" ∷ [])
      "POLICY_ACTION_RULE_INVALID"
  let action = get value "action"
  definition ← or_fail (definition_of action) "POLICY_ACTION_RULE_INVALID"
  fail_if (is_seen action seen) "POLICY_ACTION_RULE_INVALID"
  guard (is_text (get value "sensitivity") definition.sensitivity) "POLICY_ACTION_RULE_INVALID"
  minimum_score ← or_fail (valid_score (get value "minimumScore")) "POLICY_ACTION_RULE_INVALID"
  step_up_required ← or_fail (as_boolean (get value "stepUpRequired")) "POLICY_ACTION_RULE_INVALID"
  fail_if (definition.step_up_required && not step_up_required) "POLICY_ACTION_RULE_INVALID"
  roles ← validate_roles (get value "roles") definition
  ok (record {
    action = action;
    minimum_score = minimum_score;
    roles = roles;
    step_up_required = step_up_required;
  })

unfoldable pub validate_rules : List String → List Value → Result (List ActionRule)
unfolding validate_action_rule
validate_rules seen [] = ok []
validate_rules seen (value ∷ values) = validate_action_rule seen value >>= λ rule.
    validate_rules (add_seen rule.action seen) values >>= λ rules. ok (rule ∷ rules)

unfoldable pub validate_action_rules : Value → Result (List ActionRule)
unfolding validate_rules
validate_action_rules value = do
  values ← or_fail (as_array value) "POLICY_ACTION_RULES_INVALID"
  guard (length values == length action_definitions) "POLICY_ACTION_RULES_INVALID"
  validate_rules [] values
