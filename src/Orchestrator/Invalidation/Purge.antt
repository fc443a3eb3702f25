-- ===== src/Orchestrator/Invalidation/Purge.antt =====
-- services/orchestrator/src/security-state-invalidation.mjs: an invalidation removes every indexed
-- session and cache entry of its subject, touches no other key, and takes effect once.
use tenant_trust.Orchestrator.Invalidation.Applied.{IsPrepared, prepare_invalidation-eq-ok}
use tenant_trust.Orchestrator.Invalidation.Effect.{Invalidates}
use tenant_trust.Orchestrator.Invalidation.Scripts.{
  InvalidationArguments, get_members, InvalidationReply, invalidate_subject,
}
use tenant_trust.Orchestrator.Invalidation.Text.{starts_with, Text}
use tenant_trust.Orchestrator.Invalidation.Store.{
  invalidate, run_invalidation, InvalidationRequest, Invalidated, arguments_of, read_reply,
  prepare_invalidation,
}
use tenant_trust.Orchestrator.Invalidation.Keys.{
  Scope, SubjectKeys, security_state_redis_keys, subject_keys, outside, tenant_key,
  starts_with-tenant_key,
}
use tenant_trust.Orchestrator.Invalidation.Redis.{Redis, IsRedis, absent, text}
use tenant_trust.Common.{
  List, [], ◌∷◌, all, Bool, refl, ◌≡◌, true, both_true, String, Option, ok, codes, ◌++◌, Result,
  ◌≢◌, err, ◌∙◌, ap, ℕ,
}
use mathlib.Core.List.{Memᴰ}

all-mem :
    {A : Type 0} (p : A → Bool) (x : A) (xs : List A) → all p xs ≡ true → Memᴰ x xs → p x ≡ true
all-mem p x [] h m = elim m [ ]
all-mem p x (y ∷ ys) h (Memᴰ.head e) = rw e (both_true (p y) (all p ys) h).0
all-mem p x (y ∷ ys) h (Memᴰ.tail m) = all-mem p x ys (both_true (p y) (all p ys) h).1 m

module _ (redis : Redis) (laws : IsRedis redis) where
  -- What an applied invalidation of a subject does to the keys.
  pub record Purges (scope : Scope) (action_id : String) (printed : Text) (s s' : redis.State)
      : Type 0 where
    pub subject : Text
    pub keys : SubjectKeys
    pub sessions : List Text
    pub caches : List Text
    pub own_keys : security_state_redis_keys scope ≡ ok keys
    pub indexed_sessions : get_members (redis.view keys.session_index s) ≡ ok sessions
    pub indexed_caches : get_members (redis.view keys.cache_index s) ≡ ok caches
    pub session_scope : all (starts_with keys.session_prefix) sessions ≡ true
    pub cache_scope : all (starts_with keys.cache_prefix) caches ≡ true
    pub sessions_gone : (j : Text) → Memᴰ j sessions → redis.view j s' ≡ absent
    pub caches_gone : (j : Text) → Memᴰ j caches → redis.view j s' ≡ absent
    pub session_index_gone : redis.view keys.session_index s' ≡ absent
    pub cache_index_gone : redis.view keys.cache_index s' ≡ absent
    pub marked : redis.view keys.invalidation_marker s' ≡ text (codes action_id ++ b'|' ∷ printed)
    pub others_kept :
        (j : Text)
        → ¬ Memᴰ j sessions
        → ¬ Memᴰ j caches
        → j ≢ keys.session_index
        → j ≢ keys.cache_index
        → j ≢ keys.invalidation_marker
        → redis.view j s' ≡ redis.view j s

  pub Invalidates-Purges :
      (scope : Scope) (action_id : String) (printed subject : Text) (s s' : redis.State)
      (sessions caches : List Text)
      → security_state_redis_keys scope ≡ ok (subject_keys scope.tenant_id subject)
      → Invalidates redis laws
          (arguments_of (subject_keys scope.tenant_id subject) action_id printed)
          s
          sessions
          caches
          s'
      → Purges scope action_id printed s s'
  unfolding starts_with
  Invalidates-Purges scope action_id printed subject s s' sessions caches own_keys h =
      let t = scope.tenant_id in
      let marker_end = codes "security-invalidation:" ++ subject in
      record {
        subject = subject;
        keys = subject_keys scope.tenant_id subject;
        sessions = sessions;
        caches = caches;
        own_keys = own_keys;
        indexed_sessions = h.indexed_sessions;
        indexed_caches = h.indexed_caches;
        session_scope = h.session_scope;
        cache_scope = h.cache_scope;
        sessions_gone = λ j m. h.sessions_gone j m (
            outside t (codes "session:") marker_end j
              (all-mem (starts_with (tenant_key t (codes "session:"))) j sessions h.session_scope m)
              refl);
        caches_gone = λ j m. h.caches_gone j m (
            outside t (codes "cache:") marker_end j
              (all-mem (starts_with (tenant_key t (codes "cache:"))) j caches h.cache_scope m)
              refl);
        session_index_gone = h.session_index_gone (
            outside t (codes "security-s") marker_end _
              (starts_with-tenant_key t (codes "security-s")
                (codes "security-session-index:" ++ subject))
              refl);
        cache_index_gone = h.cache_index_gone (
            outside t (codes "security-c") marker_end _
              (starts_with-tenant_key t (codes "security-c")
                (codes "security-cache-index:" ++ subject))
              refl);
        marked = h.marked;
        others_kept = h.others_kept;
      }

  -- A run of invalidate that returns, with the run of the script in it.
  pub invalidate-eq-ok :
      (parse_date : Text → Option ℕ) (clock : Option Text) (request : InvalidationRequest)
      (s : redis.State) (r : Invalidated) (s' : redis.State)
      → invalidate redis parse_date clock request s ≡ (ok r, s')
      → (a : InvalidationArguments) × (reply : InvalidationReply) × IsPrepared clock request a
        × (invalidate_subject redis a s ≡ (ok reply, s'))
        × (read_reply parse_date (ok reply) ≡ ok r)
  unfolding invalidate run_invalidation
  invalidate-eq-ok parse_date clock request s r s' h =
      prepared (prepare_invalidation clock request) refl h
    where
      ran :
          (a : InvalidationArguments) (run : Result InvalidationReply × redis.State)
          → prepare_invalidation clock request ≡ ok a
          → invalidate_subject redis a s ≡ run
          → ◌≡◌ {A = Result Invalidated × redis.State}
              (read_reply parse_date run.0, run.1)
              (ok r, s')
          → (a : InvalidationArguments) × (reply : InvalidationReply) × IsPrepared clock request a
            × (invalidate_subject redis a s ≡ (ok reply, s'))
            × (read_reply parse_date (ok reply) ≡ ok r)
      ran a (err code, t) e f k = cc
      ran a (ok reply, t) e f k = (
        a,
        reply,
        prepare_invalidation-eq-ok clock request a e,
        f
            ∙ ap (λ (u : redis.State). (ok reply, u))
                (ap (λ (p : Result Invalidated × redis.State). p.1) k),
        ap (λ (p : Result Invalidated × redis.State). p.0) k,
      )

      prepared :
          (o : Result InvalidationArguments)
          → prepare_invalidation clock request ≡ o
          → run_invalidation redis parse_date o s ≡ (ok r, s')
          → (a : InvalidationArguments) × (reply : InvalidationReply) × IsPrepared clock request a
            × (invalidate_subject redis a s ≡ (ok reply, s'))
            × (read_reply parse_date (ok reply) ≡ ok r)
      prepared (err code) e k = cc
      prepared (ok a) e k = ran a (invalidate_subject redis a s) e refl k
