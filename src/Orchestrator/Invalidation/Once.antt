-- ===== src/Orchestrator/Invalidation/Once.antt =====
-- services/orchestrator/src/security-state-invalidation.mjs: what a caller of invalidate relies on.
use tenant_trust.Js.{matches_id-without_bar, matches_id}
use tenant_trust.Orchestrator.Invalidation.Effect.{Invalidates}
use tenant_trust.Orchestrator.Invalidation.Applied.{
  invalidate_subject-Applied, read_reply-applied, prepare_invalidation-again,
}
use tenant_trust.Orchestrator.Invalidation.Purge.{Purges, invalidate-eq-ok, Invalidates-Purges}
use tenant_trust.Orchestrator.Invalidation.Text.{Text, split_bar-append, text_eq_iff}
use tenant_trust.Orchestrator.Invalidation.Store.{
  invalidate, InvalidationRequest, run_invalidation, Invalidated, read_reply,
}
use tenant_trust.Orchestrator.Invalidation.Scripts.{
  prior_time, invalidate_subject, apply_marked, apply_once, InvalidationArguments, named_time,
}
use tenant_trust.Orchestrator.Invalidation.Redis.{Redis, IsRedis}
use tenant_trust.Common.{
  ◌∷◌, ℕ, refl, String, ◌≡◌, some, true, codes, ok, ◌++◌, ◌<◌, false, ◌∙◌, subst, sym, ap, arith,
  Option,
}

-- The marker of an action names it.
prior_time-marker :
    (action_id : String) (printed : Text)
    → matches_id "act_" action_id ≡ true
    → prior_time (codes action_id) (some (codes action_id ++ b'|' ∷ printed)) ≡ some printed
unfolding prior_time named_time
prior_time-marker action_id printed h =
    let split =
      split_bar-append (codes action_id) printed
        (matches_id-without_bar "act_" action_id (refl, (refl, (refl, (refl, tt)))) h) in
    let same = (text_eq_iff (codes action_id) (codes action_id)).1 refl in rw (split, same) refl

module _ (redis : Redis) (laws : IsRedis redis) (parse_date : Text → Option ℕ) where
  -- On a Redis with the documented effect of its commands, however a text is read as a date, a call
  -- of invalidate that returns that it was applied removes every indexed session and cache entry of
  -- the subject and both indices, all of them under the prefixes of the tenant, sets the marker of
  -- the subject to the action with the instant, and leaves every other key as it was.
  pub invalidate-Purges :
      (printed : Text) (request : InvalidationRequest) (s : redis.State) (r : Invalidated)
      (s' : redis.State)
      → invalidate redis parse_date (some printed) request s ≡ (ok r, s')
      → r.applied ≡ true
      → Purges redis laws request.scope request.action_id printed s s'
  invalidate-Purges printed request s r s' h applied =
      let (a, reply, p, ran, read) =
        invalidate-eq-ok redis laws parse_date (some printed) request s r s' h in
      let (sessions, caches, effect, _) =
        invalidate_subject-Applied redis laws a s reply s' (ground (arith, p.lasts)) ran
          ((read_reply-applied parse_date reply r read).0 ∙ applied) in
      let same : p.printed ≡ printed = cc in
      subst (λ t. Purges redis laws request.scope request.action_id t s s') same
        (Invalidates-Purges redis laws request.scope request.action_id p.printed p.subject s s'
          sessions caches p.encoded
          (subst (λ b. Invalidates redis laws b s sessions caches s') (sym p.prepared) effect))

  -- On a Redis with the documented effect of its commands, however a text is read as a date, when a
  -- call of invalidate was applied, the same call at any instant within the 604800 seconds that the
  -- marker lasts, with nothing but time in between, returns that it was not applied, with no
  -- sessions and no cache entries, at the instant of the first, and leaves the state as it is.
  pub invalidate-once :
      (printed later : Text) (request : InvalidationRequest) (s : redis.State) (r : Invalidated)
      (s' : redis.State) (n : ℕ)
      → invalidate redis parse_date (some printed) request s ≡ (ok r, s')
      → r.applied ≡ true
      → n < 604_800
      → invalidate redis parse_date (some later) request (redis.wait n s') ≡ (
        ok (record r { applied = false; sessions_invalidated = 0; cache_entries_invalidated = 0 }),
        redis.wait n s',
      )
  unfolding invalidate run_invalidation invalidate_subject apply_marked apply_once read_reply
  invalidate-once printed later request s r s' n h applied below =
      let (a, reply, p, ran, read) =
        invalidate-eq-ok redis laws parse_date (some printed) request s r s' h in
      let (was_applied, parsed) = read_reply-applied parse_date reply r read in
      let (_, _, effect, at) =
        invalidate_subject-Applied redis laws a s reply s' (ground (arith, p.lasts)) ran
          (was_applied ∙ applied) in
      let again = prepare_invalidation-again (some printed) request a later p.is_request in
      let marker =
        effect.stays_marked n
          (subst (λ (b : InvalidationArguments). n < b.marker_ttl) p.prepared below) in
      let named : prior_time a.action_id (some (a.action_id ++ b'|' ∷ a.invalidated_at))
          ≡ some a.invalidated_at =
        subst
          (λ (b : InvalidationArguments).
            prior_time b.action_id (some (b.action_id ++ b'|' ∷ b.invalidated_at))
            ≡ some b.invalidated_at)
          p.prepared (prior_time-marker request.action_id p.printed p.has_action_id) in
      let time : parse_date a.invalidated_at ≡ some r.invalidated_at =
        ap parse_date (sym at) ∙ parsed in
      rw (again, marker, named, time) refl
