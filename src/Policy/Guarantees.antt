-- ===== src/Policy/Guarantees.antt =====
-- What the validation of policy data accepts, and that it accepts the prototype of every tenant.
use tenant_trust.Common.{
  ℕ, ◌≤◌, ◌<◌, ◌≡◌, refl, inl, inr, String, [], some, arith, ok, >>=-eq-ok, guard, or_fail,
  or_fail-eq-ok, All, length, Bool-cases, str_eq_refl, sort, str_eq, ◌∙◌, ap, str_eq_iff,
  guard-eq-ok, subst,
}
use tenant_trust.Js.{
  Value, string, get, valid_score, points, as_text, matches_id, is_plain_object, keys, safe_integer,
}
use tenant_trust.Trust.Controls.Decode.{identifier}
use tenant_trust.Access.Context.{is_text}
use tenant_trust.Policy.Rules.{
  require_exact_fields, definition_of, validate_roles, validate_action_rules,
}
use tenant_trust.Policy.Configuration.{
  ScoreBands, PolicyConfiguration, validate_score_bands, validate_configuration, configuration_of,
  validate_adaptive_authorization_policy_data, prototype_data, create_slide14_prototype_policy_data,
  integer_between, is_profile_id,
}
use tenant_trust.Policy.Accepted.{IsRule, NotSeen, validate_action_rules-eq-ok}

-- Bands as they are read from their object.
abbrev pub ReadsBands : Value → ScoreBands → Type 0
ReadsBands v b =
    (valid_score (get v "quarantineBelow") ≡ some b.quarantine_below)
    × (valid_score (get v "restrictedBelow") ≡ some b.restricted_below)
    × (valid_score (get v "conditionalBelow") ≡ some b.conditional_below)
    × (valid_score (get v "maximum") ≡ some b.maximum)
    × (b.maximum ≡ points 100)

-- A configuration that is accepted: bands in order up to 100, an age of a step-up from 1 to 900
-- seconds, and eight rules within the definitions of their actions, no text twice.
pub record IsPolicy (v : Value) (tenant : String) (c : PolicyConfiguration) : Type 0 where
  pub tenant_bound : get v "tenantId" ≡ string tenant
  pub same_tenant : c.tenant_id ≡ tenant
  pub reads_profile : get v "policyProfile" ≡ string c.policy_profile
  pub reads_bands : ReadsBands (get v "scoreBands") c.score_bands
  pub reads_age :
      safe_integer (get v "stepUpMaximumAgeSeconds") ≡ some c.step_up_maximum_age_seconds
  pub reads_rules : validate_action_rules (get v "actionRules") ≡ ok c.action_rules
  pub from_zero : 0 < c.score_bands.quarantine_below
  pub quarantine_first : c.score_bands.quarantine_below < c.score_bands.restricted_below
  pub restricted_next : c.score_bands.restricted_below < c.score_bands.conditional_below
  pub conditional_last : c.score_bands.conditional_below < points 100
  pub age_positive : 1 ≤ c.step_up_maximum_age_seconds
  pub age_bounded : c.step_up_maximum_age_seconds ≤ 900
  pub eight_rules : length c.action_rules ≡ 8
  pub are_rules : All IsRule c.action_rules
  pub no_text_twice : NotSeen [] c.action_rules

abbrev pub Ordered : ScoreBands → Type 0
Ordered b =
    (0 < b.quarantine_below)
    × (b.quarantine_below < b.restricted_below)
    × (b.restricted_below < b.conditional_below)
    × (b.conditional_below < points 100)

validate_score_bands-eq-ok :
    (v : Value) {b : ScoreBands} → validate_score_bands v ≡ ok b → Ordered b × ReadsBands v b
unfolding validate_score_bands
validate_score_bands-eq-ok v h = (ground arith, ground arith)

as_text-eq-some : (v : Value) {s : String} → as_text v ≡ some s → v ≡ string s
as_text-eq-some (string t) h = cc
as_text-eq-some _ h = cc

age_in_range :
    (v : Value) {n : ℕ}
    → integer_between 1 900 v ≡ some n
    → (1 ≤ n) × (n ≤ 900) × (safe_integer v ≡ some n)
age_in_range v h = ground arith

validate_configuration-eq-ok :
    (v expected : Value) {c : PolicyConfiguration}
    → validate_configuration v expected ≡ ok c
    → (tenant : String) × (identifier "tnt_" expected ≡ some tenant) × IsPolicy v tenant c
unfolding validate_configuration
validate_configuration-eq-ok v expected {c} h =
    let (_, _, h1) = >>=-eq-ok (require_exact_fields v _ "POLICY_CONFIGURATION_INVALID") _ h in
    let (tenant, has_tenant, h2) =
      >>=-eq-ok (or_fail (identifier "tnt_" expected) "POLICY_CONFIGURATION_INVALID") _ h1 in
    let (own, has_own, h2b) = >>=-eq-ok (or_fail (as_text (get v "tenantId")) _) _ h2 in
    let (_, bound, h3) = >>=-eq-ok (guard (str_eq own tenant) _) _ h2b in
    let (_, _, h4) = >>=-eq-ok (guard (is_text (get v "schemaVersion") "1.0.0") _) _ h3 in
    let (profile, profiled, h5) = >>=-eq-ok (or_fail (as_text (get v "policyProfile")) _) _ h4 in
    let (_, _, h6) = >>=-eq-ok (guard (is_profile_id profile) _) _ h5 in
    let (_, _, h7) = >>=-eq-ok (guard (is_text (get v "calibrationStatus") _) _) _ h6 in
    let (_, _, h8) = >>=-eq-ok (guard (is_text (get v "quarantineAction") _) _) _ h7 in
    let (age, aged, h9) =
      >>=-eq-ok (or_fail (integer_between 1 900 (get v "stepUpMaximumAgeSeconds")) _) _ h8 in
    let (bands, banded, h10) = >>=-eq-ok (validate_score_bands (get v "scoreBands")) _ h9 in
    let (rules, ruled, h11) = >>=-eq-ok (validate_action_rules (get v "actionRules")) _ h10 in
    let ((from_zero, first, next, last), reads) = validate_score_bands-eq-ok _ banded in
    let (are_rules, not_seen, eight) = validate_action_rules-eq-ok _ ruled in
    let (positive, bounded, aged_as) =
      age_in_range (get v "stepUpMaximumAgeSeconds") (or_fail-eq-ok _ _ aged) in
    (
      tenant,
      or_fail-eq-ok _ _ has_tenant,
      subst (λ x. IsPolicy v tenant x) (same_read h11)
          (record {
            tenant_bound =
                as_text-eq-some _ (or_fail-eq-ok _ _ has_own)
                ∙ ap string ((str_eq_iff own tenant).0 (guard-eq-ok _ _ bound));
            same_tenant = (str_eq_iff own tenant).0 (guard-eq-ok _ _ bound);
            reads_profile = as_text-eq-some _ (or_fail-eq-ok _ _ profiled);
            reads_bands = reads;
            reads_age = aged_as;
            reads_rules = ruled;
            from_zero = from_zero;
            quarantine_first = first;
            restricted_next = next;
            conditional_last = last;
            age_positive = positive;
            age_bounded = bounded;
            eight_rules = eight;
            are_rules = are_rules;
            no_text_twice = not_seen;
          }),
    )
  where
    same_read : {x y : PolicyConfiguration} → ok x ≡ ok y → x ≡ y
    same_read e = cc

-- If the policy data is accepted for an expected tenant, the data is returned as it is and the
-- expected tenant is an identifier; the tenant, profile, bands, step-up age and rules of the
-- configuration that is read are those of the data, its tenant is the expected one, its score bands
-- are in order above 0 and up to 100, its step-up age is from 1 to 900 seconds, and it has eight
-- rules, each within the definition of its action (a score from 0 to 100, some role, only allowed
-- roles, a step-up where the definition requires one), with no action twice that is a text.
pub validate_adaptive_authorization_policy_data-IsPolicy :
    (v expected w : Value)
    → validate_adaptive_authorization_policy_data v expected ≡ ok w
    → (w ≡ v)
      × (tenant : String) × (identifier "tnt_" expected ≡ some tenant)
      × (c : PolicyConfiguration) × (validate_configuration (configuration_of v) expected ≡ ok c)
      × IsPolicy (configuration_of v) tenant c
unfolding validate_adaptive_authorization_policy_data
validate_adaptive_authorization_policy_data-IsPolicy v expected w h =
    let root = get v "tenant_trust_policy" in
    let authorization = get root "authorization" in
    let (_, _, h1) = >>=-eq-ok (require_exact_fields v _ "POLICY_DATA_INVALID") _ h in
    let (_, _, h2) = >>=-eq-ok (require_exact_fields root _ "POLICY_DATA_INVALID") _ h1 in
    let (_, _, h3) = >>=-eq-ok (require_exact_fields authorization _ "POLICY_DATA_INVALID") _ h2 in
    let (c, accepted, h4) = >>=-eq-ok (validate_configuration (configuration_of v) expected) _ h3 in
    let (tenant, has_tenant, policy) =
      validate_configuration-eq-ok (configuration_of v) expected accepted in
    (cc, tenant, has_tenant, c, accepted, policy)

-- An identifier that was read is read again.
identifier_again :
    (prefix : String) (v : Value) {s : String}
    → identifier prefix v ≡ some s
    → identifier prefix (string s) ≡ some s
identifier_again prefix (string t) h = elim (Bool-cases (matches_id prefix t)) [
  | inl good ↦ ground arith
  | inr bad ↦ ground arith
]
identifier_again prefix _ h = ground arith

prototype_accepted :
    (tenant : String)
    → identifier "tnt_" (string tenant) ≡ some tenant
    → validate_adaptive_authorization_policy_data (prototype_data tenant) (string tenant)
      ≡ ok (prototype_data tenant)
unfolding validate_adaptive_authorization_policy_data require_exact_fields is_plain_object sort keys
    get is_text is_profile_id safe_integer valid_score validate_action_rules definition_of
    validate_roles
prototype_accepted tenant h = rw (h, str_eq_refl tenant) refl

-- For an input whose tenant is an identifier, the prototype of the policy data is returned: it
-- passes the validation for that tenant.
pub create_slide14_prototype_policy_data-ok :
    (v : Value) (tenant : String)
    → identifier "tnt_" (get v "tenantId") ≡ some tenant
    → create_slide14_prototype_policy_data v ≡ ok (prototype_data tenant)
unfolding create_slide14_prototype_policy_data
create_slide14_prototype_policy_data-ok v tenant h =
    rw h (prototype_accepted tenant (identifier_again "tnt_" (get v "tenantId") h))
