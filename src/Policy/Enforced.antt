-- ===== src/Policy/Enforced.antt =====
-- apps/api/src/policy-enforcement.mjs: what a decision that is enforced rests on.
use tenant_trust.Policy.Answered.{
  StaysFresh, check_arguments-eq-ok, hash_policy_input-eq-ok, build_input-eq-ok,
  request_decision-eq-ok, assert_decision_binding-eq-ok, check_required_outcome-eq-ok,
  assert_trust_remains_fresh-eq-ok,
}
use tenant_trust.Access.Context.{is_text}
use tenant_trust.Policy.Canonical.{Part, canonicalize}
use tenant_trust.Policy.Enforcement.{
  Enforcement, assert_decision_binding, assert_trust_remains_fresh, check_required_outcome,
  hash_policy_input, EnforcedDecision, check_authorization_context, bindings, check_trust_binding,
  monotonic_time, check_bundle, check_arguments, decide, enforce_input, require_object,
}
use tenant_trust.Policy.Input.{DecisionArguments, policy_input, build_input}
use tenant_trust.Policy.Client.{request_decision, answered}
use tenant_trust.Common.{
  ℕ, String, List, some, true, false, refl, ok, ◌≤◌, ◌≡◌, >>=-eq-ok, All, ◌⊎◌, subst, with_code,
  with_code-eq-ok,
}
use tenant_trust.Js.{Value, get, canonical_utc, is_null, strict_eq}

-- A decision that is enforced.
pub record IsEnforced (enforcement : Enforcement) (a : DecisionArguments) (e : EnforcedDecision)
    : Type 0 where
  pub trust : Value
  pub read_at : ℕ
  pub parts : List Part
  pub evaluated_at : ℕ
  pub requested_at : ℕ
  pub is_context : check_authorization_context a.authorization a.action ≡ ok tt
  pub has_trust : enforcement.lookup_trust a.context ≡ ok trust
  pub trust_bound : check_trust_binding trust a.context ≡ ok tt
  pub read : monotonic_time enforcement.read_at ≡ ok read_at
  pub has_bundle : enforcement.lookup_active a.context ≡ ok e.policy_bundle
  pub bundle_active : check_bundle e.policy_bundle a.context ≡ ok tt
  pub is_input : e.input ≡ policy_input a trust
  pub valid_input : enforcement.schemas.validate_input e.input ≡ true
  pub canonical : canonicalize e.input ≡ ok parts
  pub hashed : e.input_hash ≡ enforcement.sha256 parts
  pub answers :
      (body : Value) × (enforcement.exchange e.input ≡ answered body)
      × (get body "result" ≡ e.decision)
  pub valid_output : enforcement.schemas.validate_output e.decision ≡ true
  pub bound :
      All
        (λ (p : Value × Value). strict_eq p.0 p.1 ≡ true)
        (bindings e.decision e.input e.input_hash e.policy_bundle)
  pub evaluated : canonical_utc (get e.decision "evaluatedAt") ≡ some evaluated_at
  pub requested :
      canonical_utc (get (get e.input "requestContext") "requestedAt") ≡ some requested_at
  pub in_order : requested_at ≤ evaluated_at
  pub required_outcome :
      (is_null (get trust "requiredOutcome") ≡ true)
      ⊎ (strict_eq (get e.decision "outcome") (get trust "requiredOutcome") ≡ true)
  pub still_fresh :
      (is_text (get trust "state") "fresh" ≡ false)
      ⊎ ((now : ℕ) × (monotonic_time enforcement.checked_at ≡ ok now)
          × StaysFresh trust read_at now)

-- The end of a decision, from its input.
record Ends (enforcement : Enforcement) (trust : Value) (read_at : ℕ) (bundle input : Value)
    (e : EnforcedDecision) : Type 0 where
  pub hash : String
  pub decision : Value
  pub hashes : hash_policy_input enforcement input ≡ ok hash
  pub decides : request_decision enforcement.schemas enforcement.exchange input ≡ ok decision
  pub binds : assert_decision_binding decision input hash bundle ≡ ok tt
  pub requires : check_required_outcome trust decision ≡ ok tt
  pub fresh : assert_trust_remains_fresh trust read_at enforcement.checked_at ≡ ok tt
  pub result :
      record { input = input; input_hash = hash; policy_bundle = bundle; decision = decision } ≡ e

enforce_input-Ends :
    (enforcement : Enforcement) (trust : Value) (read_at : ℕ) (bundle input : Value)
    (e : EnforcedDecision)
    → enforce_input enforcement trust read_at bundle input ≡ ok e
    → Ends enforcement trust read_at bundle input e
unfolding enforce_input
enforce_input-Ends enforcement trust read_at bundle input e h =
    let (hash, hashes, h1) = >>=-eq-ok (hash_policy_input enforcement input) _ h in
    let (decision, decides, h2) =
      >>=-eq-ok (request_decision enforcement.schemas enforcement.exchange input) _ h1 in
    let (_, binds, h3) = >>=-eq-ok (assert_decision_binding decision input hash bundle) _ h2 in
    let (_, requires, h4) = >>=-eq-ok (check_required_outcome trust decision) _ h3 in
    let (_, fresh, h5) =
      >>=-eq-ok (assert_trust_remains_fresh trust read_at enforcement.checked_at) _ h4 in
    record {
      hash = hash;
      decision = decision;
      hashes = hashes;
      decides = decides;
      binds = binds;
      requires = requires;
      fresh = fresh;
      result = cc;
    }

Ends-IsEnforced :
    (enforcement : Enforcement) (a : DecisionArguments) (e : EnforcedDecision) (trust : Value)
    (read_at : ℕ) (bundle : Value)
    → check_authorization_context a.authorization a.action ≡ ok tt
    → enforcement.lookup_trust a.context ≡ ok trust
    → check_trust_binding trust a.context ≡ ok tt
    → monotonic_time enforcement.read_at ≡ ok read_at
    → enforcement.lookup_active a.context ≡ ok bundle
    → check_bundle bundle a.context ≡ ok tt
    → Ends enforcement trust read_at bundle (policy_input a trust) e
    → IsEnforced enforcement a e
Ends-IsEnforced enforcement a e trust read_at bundle is_context has_trust trust_bound read
      has_bundle bundle_active k =
    let input = policy_input a trust in
    let (parts, canonical, hashed) = hash_policy_input-eq-ok enforcement input k.hash k.hashes in
    let (valid_input, answers, valid_output) =
      request_decision-eq-ok enforcement.schemas enforcement.exchange input k.decision k.decides in
    let (bound, (evaluated_at, requested_at, evaluated, requested, in_order)) =
      assert_decision_binding-eq-ok k.decision input k.hash bundle k.binds in
    subst (λ x. IsEnforced enforcement a x) k.result
      (record {
        trust = trust;
        read_at = read_at;
        parts = parts;
        evaluated_at = evaluated_at;
        requested_at = requested_at;
        is_context = is_context;
        has_trust = has_trust;
        trust_bound = trust_bound;
        read = read;
        has_bundle = has_bundle;
        bundle_active = bundle_active;
        is_input = refl;
        valid_input = valid_input;
        canonical = canonical;
        hashed = hashed;
        answers = answers;
        valid_output = valid_output;
        bound = bound;
        evaluated = evaluated;
        requested = requested;
        in_order = in_order;
        required_outcome = check_required_outcome-eq-ok trust k.decision k.requires;
        still_fresh = assert_trust_remains_fresh-eq-ok trust read_at enforcement.checked_at k.fresh;
      })

-- If a decision is enforced, then the authorization demands a policy decision for the action, the
-- trust state and the active policy bundle were looked up and are of the tenant (and the trust
-- state of the subject), the input is built from them and valid, and the decision is the valid
-- result that the policy engine has answered for it; the decision names the identifiers, versions,
-- policy and hash of that input and bundle, is not dated before the request, has the outcome that
-- the trust state requires, if any, and a fresh trust state has not become stale by the second
-- reading of the clock.
pub decide-IsEnforced :
    (enforcement : Enforcement) (a : DecisionArguments) (e : EnforcedDecision)
    → decide enforcement a ≡ ok e
    → IsEnforced enforcement a e
unfolding decide
decide-IsEnforced enforcement a e h =
    let (_, arguments, h1) = >>=-eq-ok (check_arguments a) _ h in
    let (trust, has_trust, h2) =
      >>=-eq-ok (with_code (enforcement.lookup_trust a.context) _) _ h1 in
    let (_, _, h3) = >>=-eq-ok (require_object trust _) _ h2 in
    let (read_at, read, h4) = >>=-eq-ok (monotonic_time enforcement.read_at) _ h3 in
    let (_, trust_bound, h5) = >>=-eq-ok (check_trust_binding trust a.context) _ h4 in
    let (bundle, has_bundle, h6) =
      >>=-eq-ok (with_code (enforcement.lookup_active a.context) _) _ h5 in
    let (_, bundle_active, h7) = >>=-eq-ok (check_bundle bundle a.context) _ h6 in
    let (input, built, h8) = >>=-eq-ok (build_input a trust) _ h7 in
    let ends = enforce_input-Ends enforcement trust read_at bundle input e h8 in
    Ends-IsEnforced enforcement a e trust read_at bundle (check_arguments-eq-ok a arguments)
      (with_code-eq-ok (enforcement.lookup_trust a.context) _ has_trust) trust_bound read
      (with_code-eq-ok (enforcement.lookup_active a.context) _ has_bundle) bundle_active
      (subst (λ v. Ends enforcement trust read_at bundle v e)
        (build_input-eq-ok a trust input built) ends)
