-- ===== src/Policy/Accepted.antt =====
-- What validateActionRules accepts.
use tenant_trust.Common.{
  ℕ, ◌≤◌, ◌≡◌, refl, ◌∙◌, ap, ◌⊎◌, inl, inr, String, List, [], ◌∷◌, some, Bool, true, false, not,
  ◌&&◌, arith, leb, ok, >>=-eq-ok, guard, guard-eq-ok, fail_if, fail_if-eq-ok, or_fail,
  or_fail-eq-ok, All, includes, length, Option-cases, distinct, suc, ◌==◌,
}
use tenant_trust.Js.{Value, string, get, as_array, as_boolean, valid_score}
use tenant_trust.Trust.Rounding.{IsScore}
use tenant_trust.Trust.Controls.Invariant.{valid_score-IsScore}
use tenant_trust.Access.Context.{is_text}
use tenant_trust.Policy.Rules.{
  ActionDefinition, ActionRule, action_definitions, require_exact_fields, definition_of, is_seen,
  add_seen, texts_among, validate_roles, validate_action_rule, validate_rules,
  validate_action_rules,
}

-- A rule within the definition of its action.
pub record IsRule (r : ActionRule) : Type 0 where
  pub definition : ActionDefinition
  pub defined : definition_of r.action ≡ some definition
  pub in_range : IsScore r.minimum_score
  pub some_role : 1 ≤ length r.roles
  pub allowed : All (λ role. includes definition.allowed_roles role ≡ true) r.roles
  pub steps_up : (definition.step_up_required ≡ false) ⊎ (r.step_up_required ≡ true)

texts_among-All :
    (allowed : List String) (vs : List Value) {roles : List String}
    → texts_among allowed vs ≡ some roles
    → All (λ role. includes allowed role ≡ true) roles × (length roles ≡ length vs)
texts_among-All allowed [] {roles} h = ground arith
texts_among-All allowed (string s ∷ vs) {roles} h = elim (Option-cases (texts_among allowed vs)) [
  | inl bad ↦ ground arith
  | inr (rest, good) ↦ let (members, same) = texts_among-All allowed vs good in ground arith
]
texts_among-All allowed (_ ∷ vs) {roles} h = ground arith

validate_roles-eq-ok :
    (v : Value) (d : ActionDefinition) {roles : List String}
    → validate_roles v d ≡ ok roles
    → (1 ≤ length roles) × All (λ role. includes d.allowed_roles role ≡ true) roles
unfolding validate_roles
validate_roles-eq-ok v d {roles} h =
    let (values, _, h1) = >>=-eq-ok (or_fail (as_array v) "POLICY_ACTION_RULE_INVALID") _ h in
    let (_, sized, h2) =
      >>=-eq-ok
        (guard (leb 1 (length values) && leb (length values) (length d.allowed_roles))
          "POLICY_ACTION_RULE_INVALID")
        _ h1 in
    let (read, among, h3) =
      >>=-eq-ok (or_fail (texts_among d.allowed_roles values) "POLICY_ACTION_RULE_INVALID") _ h2 in
    let (_, _, h4) =
      >>=-eq-ok (guard (length (distinct read) == length read) "POLICY_ACTION_RULE_INVALID") _ h3 in
    let same : read ≡ roles = cc in
    let (members, long) = texts_among-All d.allowed_roles values (or_fail-eq-ok _ _ among) in
    let size = guard-eq-ok _ _ sized in rw (← same) (ground arith, members)

-- What one step of the loop makes sure of.
record Checks (seen : List String) (v : Value) (r : ActionRule) : Type 0 where
  pub is_rule : IsRule r
  pub same_action : r.action ≡ get v "action"
  pub new : is_seen r.action seen ≡ false

validate_action_rule-Checks :
    (seen : List String) (v : Value) {r : ActionRule}
    → validate_action_rule seen v ≡ ok r
    → Checks seen v r
unfolding validate_action_rule
validate_action_rule-Checks seen v {r} h =
    let (_, _, h1) = >>=-eq-ok (require_exact_fields v _ "POLICY_ACTION_RULE_INVALID") _ h in
    let (d, defined, h2) =
      >>=-eq-ok (or_fail (definition_of (get v "action")) "POLICY_ACTION_RULE_INVALID") _ h1 in
    let (_, new, h3) =
      >>=-eq-ok (fail_if (is_seen (get v "action") seen) "POLICY_ACTION_RULE_INVALID") _ h2 in
    let (_, _, h4) =
      >>=-eq-ok (guard (is_text (get v "sensitivity") d.sensitivity) "POLICY_ACTION_RULE_INVALID") _
        h3 in
    let (score, scored, h5) =
      >>=-eq-ok (or_fail (valid_score (get v "minimumScore")) "POLICY_ACTION_RULE_INVALID") _ h4 in
    let (step_up, _, h6) =
      >>=-eq-ok (or_fail (as_boolean (get v "stepUpRequired")) "POLICY_ACTION_RULE_INVALID") _ h5 in
    let (_, stepped, h7) =
      >>=-eq-ok (fail_if (d.step_up_required && not step_up) "POLICY_ACTION_RULE_INVALID") _ h6 in
    let (roles, allowed, h8) = >>=-eq-ok (validate_roles (get v "roles") d) _ h7 in
    let (some_role, members) = validate_roles-eq-ok (get v "roles") d allowed in
    let made : record {
      action = get v "action";
      minimum_score = score;
      roles = roles;
      step_up_required = step_up;
    }
        ≡ r =
      cc in
    rw (← made) (record {
      is_rule = record {
        definition = d;
        defined = or_fail-eq-ok _ _ defined;
        in_range = valid_score-IsScore _ (or_fail-eq-ok _ _ scored);
        some_role = some_role;
        allowed = members;
        steps_up = steps d.step_up_required step_up (fail_if-eq-ok _ _ stepped);
      };
      same_action = refl;
      new = fail_if-eq-ok _ _ new;
    })
  where
    steps : (a b : Bool) → (a && not b) ≡ false → (a ≡ false) ⊎ (b ≡ true)
    steps a b h = ground arith

-- No rule has an action that is a text and was met before.
abbrev pub NotSeen : List String → List ActionRule → Type 0
NotSeen seen [] = Unit
NotSeen seen (r ∷ rs) = (is_seen r.action seen ≡ false) × NotSeen (add_seen r.action seen) rs

validate_rules-eq-ok :
    (seen : List String) (vs : List Value) {rules : List ActionRule}
    → validate_rules seen vs ≡ ok rules
    → All IsRule rules × NotSeen seen rules × (length rules ≡ length vs)
unfolding validate_rules
validate_rules-eq-ok seen [] {rules} h = ground arith
validate_rules-eq-ok seen (v ∷ vs) {rules} h =
    let (r, first, h1) = >>=-eq-ok (validate_action_rule seen v) _ h in
    let (rest, others, h2) = >>=-eq-ok (validate_rules (add_seen r.action seen) vs) _ h1 in
    let checks = validate_action_rule-Checks seen v first in
    let (are_rules, not_seen, long) = validate_rules-eq-ok (add_seen r.action seen) vs others in
    let made : r ∷ rest ≡ rules = cc in
    rw (← made) ((checks.is_rule, are_rules), (checks.new, not_seen), ap suc long)

pub validate_action_rules-eq-ok :
    (v : Value) {rules : List ActionRule}
    → validate_action_rules v ≡ ok rules
    → All IsRule rules × NotSeen [] rules × (length rules ≡ 8)
unfolding validate_action_rules
validate_action_rules-eq-ok v {rules} h =
    let (values, _, h1) = >>=-eq-ok (or_fail (as_array v) "POLICY_ACTION_RULES_INVALID") _ h in
    let (_, sized, h2) =
      >>=-eq-ok (guard (length values == length action_definitions) "POLICY_ACTION_RULES_INVALID") _
        h1 in
    let (are_rules, not_seen, long) = validate_rules-eq-ok [] values h2 in
    (are_rules, not_seen, long ∙ eight (length values) (guard-eq-ok _ _ sized))
  where
    eight : (n : ℕ) → (n == 8) ≡ true → n ≡ 8
    eight n h = ground arith
