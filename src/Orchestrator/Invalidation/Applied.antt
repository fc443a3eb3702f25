-- ===== src/Orchestrator/Invalidation/Applied.antt =====
-- services/orchestrator/src/security-state-invalidation.mjs: what the checks of a request and an
-- applied run of the script say.
use tenant_trust.Orchestrator.Invalidation.Effect.{Invalidates, delete_subject-Invalidates}
use tenant_trust.Js.{matches_id}
use tenant_trust.Orchestrator.Invalidation.Scripts.{
  InvalidationArguments, invalidate_subject, apply_invalidation, InvalidationReply, get_text,
  prior_time, check_scopes, apply_marked, delete_subject, apply_once,
}
use tenant_trust.Orchestrator.Invalidation.Text.{Text}
use tenant_trust.Orchestrator.Invalidation.Store.{
  prepare_invalidation, InvalidationRequest, arguments_of, invalidating_actions, read_reply,
  Invalidated,
}
use tenant_trust.Orchestrator.Invalidation.Redis.{Redis, IsRedis}
use tenant_trust.Orchestrator.Invalidation.Keys.{
  security_state_redis_keys, Scope, SubjectKeys, subject_keys, assert_scope, key_part,
}
use tenant_trust.Common.{
  List, [], Bool, Option, ◌≡◌, true, both_true, ok, >>=-eq-ok, some, guard, ◌&&◌, includes, or_fail,
  Result, or_fail-eq-ok, err, ◌∙◌, ap, false, guard-eq-ok, subst, refl, sym, none, ◌<◌, ℕ,
}

-- A request that passes the checks.
pub record IsPrepared (clock : Option Text) (request : InvalidationRequest)
    (a : InvalidationArguments) : Type 0 where
  pub printed : Text
  pub subject : Text
  pub stamped : clock ≡ some printed
  pub encoded :
      security_state_redis_keys request.scope ≡ ok (subject_keys request.scope.tenant_id subject)
  pub lasts : a.marker_ttl ≡ 604_800
  pub is_request : prepare_invalidation clock request ≡ ok a
  pub has_action_id : matches_id "act_" request.action_id ≡ true
  pub prepared :
      arguments_of (subject_keys request.scope.tenant_id subject) request.action_id printed ≡ a

security_state_redis_keys-eq-ok :
    (scope : Scope) (keys : SubjectKeys)
    → security_state_redis_keys scope ≡ ok keys
    → (subject : Text) × (keys ≡ subject_keys scope.tenant_id subject)
unfolding security_state_redis_keys
security_state_redis_keys-eq-ok scope keys h =
    let (_, _, h1) = >>=-eq-ok (assert_scope scope) _ h in
    let (subject, _, h2) = >>=-eq-ok (key_part scope.subject_id) _ h1 in (subject, cc)

pub prepare_invalidation-eq-ok :
    (clock : Option Text) (request : InvalidationRequest) (a : InvalidationArguments)
    → prepare_invalidation clock request ≡ ok a
    → IsPrepared clock request a
unfolding prepare_invalidation
prepare_invalidation-eq-ok clock request a h =
    let (_, _, h1) = >>=-eq-ok (assert_scope request.scope) _ h in
    let (_, valid, h2) =
      >>=-eq-ok
        (guard
          (matches_id "act_" request.action_id && includes invalidating_actions request.action_type)
          _)
        _ h1 in
    let (printed, stamped, h3) = >>=-eq-ok (or_fail clock _) _ h2 in
    let (keys, made, h4) = >>=-eq-ok (security_state_redis_keys request.scope) _ h3 in
    let (subject, same) = security_state_redis_keys-eq-ok request.scope keys made in
    record {
      printed = printed;
      subject = subject;
      stamped = or_fail-eq-ok clock _ stamped;
      lasts = cc;
      is_request = h;
      encoded = made ∙ ap ok same;
      has_action_id = (both_true (matches_id "act_" request.action_id) _ (guard-eq-ok _ _ valid)).0;
      prepared = cc;
    }

-- The same request at another instant passes the checks as well.
pub prepare_invalidation-again :
    (clock : Option Text) (request : InvalidationRequest) (a : InvalidationArguments) (later : Text)
    → prepare_invalidation clock request ≡ ok a
    → prepare_invalidation (some later) request ≡ ok (record a { invalidated_at = later })
unfolding prepare_invalidation
prepare_invalidation-again clock request a later h =
    let (_, scoped, h1) = >>=-eq-ok (assert_scope request.scope) _ h in
    let (_, valid, h2) =
      >>=-eq-ok
        (guard
          (matches_id "act_" request.action_id && includes invalidating_actions request.action_type)
          _)
        _ h1 in
    let (printed, stamped, h3) = >>=-eq-ok (or_fail clock _) _ h2 in
    let (keys, made, h4) = >>=-eq-ok (security_state_redis_keys request.scope) _ h3 in
    let same : arguments_of keys request.action_id printed ≡ a = cc in
    rw (scoped, valid, made)
      (ap (λ (b : InvalidationArguments). ok (record b { invalidated_at = later })) same)

abbrev pub at_of : Result InvalidationReply → Text
at_of (ok r) = r.at
at_of (err _) = []

abbrev pub is_applied : Result InvalidationReply → Bool
is_applied (ok r) = r.applied
is_applied (err _) = false

pub read_reply-applied :
    (parse_date : Text → Option ℕ) (reply : InvalidationReply) (r : Invalidated)
    → read_reply parse_date (ok reply) ≡ ok r
    → (reply.applied ≡ r.applied) × (parse_date reply.at ≡ some r.invalidated_at)
unfolding read_reply
read_reply-applied parse_date reply r h =
    let (t, parsed, h1) = >>=-eq-ok (or_fail (parse_date reply.at) _) _ h in
    let same : t ≡ r.invalidated_at = cc in
    (cc, or_fail-eq-ok (parse_date reply.at) _ parsed ∙ ap some same)

module _ (redis : Redis) (laws : IsRedis redis) where
  -- A script that was applied.
  abbrev pub Applied :
      (a : InvalidationArguments) (s : redis.State) (r : InvalidationReply) (s' : redis.State)
      → Type 0
  Applied a s r s' =
      (sessions caches : List Text) × Invalidates redis laws a s sessions caches s'
      × (r.at ≡ a.invalidated_at)

  apply_invalidation-Applied :
      (a : InvalidationArguments) (s : redis.State) (scopes : Result (List Text × List Text))
      (r : InvalidationReply) (s' : redis.State)
      → 0 < a.marker_ttl
      → check_scopes redis a s ≡ scopes
      → apply_invalidation redis a scopes s ≡ (ok r, s')
      → Applied a s r s'
  unfolding apply_invalidation delete_subject
  apply_invalidation-Applied a s (err code) r s' lasts e h = cc
  apply_invalidation-Applied a s (ok (sessions, caches)) r s' lasts e h =
      let all_gone = delete_subject-Invalidates redis laws a s sessions caches lasts e in
      (
        sessions,
        caches,
        subst (λ t. Invalidates redis laws a s sessions caches t)
            (ap (λ (p : Result InvalidationReply × redis.State). p.1) h) all_gone,
        sym (ap (λ (p : Result InvalidationReply × redis.State). at_of p.0) h),
      )

  pub invalidate_subject-Applied :
      (a : InvalidationArguments) (s : redis.State) (r : InvalidationReply) (s' : redis.State)
      → 0 < a.marker_ttl
      → invalidate_subject redis a s ≡ (ok r, s')
      → r.applied ≡ true
      → Applied a s r s'
  unfolding invalidate_subject apply_marked apply_once
  invalidate_subject-Applied a s r s' lasts h applied = marked (get_text (redis.view a.marker s)) h
    where
      once : (o : Option Text) → apply_once redis a o s ≡ (ok r, s') → Applied a s r s'
      once (some at) k =
          let clash : false ≡ true =
            ap (λ (p : Result InvalidationReply × redis.State). is_applied p.0) k ∙ applied in
          cc
      once none k = apply_invalidation-Applied a s (check_scopes redis a s) r s' lasts refl k

      marked : (o : Result (Option Text)) → apply_marked redis a o s ≡ (ok r, s') → Applied a s r s'
      marked (err code) k = cc
      marked (ok prior) k = once (prior_time a.action_id prior) k
