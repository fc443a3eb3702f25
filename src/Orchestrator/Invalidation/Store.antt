-- ===== src/Orchestrator/Invalidation/Store.antt =====
-- services/orchestrator/src/security-state-invalidation.mjs: createRedisSecurityStateStore. The clock
-- is at an instant that `Date` prints, or at an invalid date, which is `none`.
use tenant_trust.Common.{
  ℕ, String, List, [], ◌∷◌, Option, Bool, ◌&&◌, leb, includes, codes, Result, ok, err, guard,
  or_fail, ◌>>=◌, ◌>>◌, utf_16_length,
}
use tenant_trust.Js.{matches_id}
use tenant_trust.Orchestrator.Invalidation.Text.{Text}
use tenant_trust.Orchestrator.Invalidation.Redis.{Redis}
use tenant_trust.Orchestrator.Invalidation.Scripts.{
  InvalidationArguments, InvalidationReply, invalidate_subject, register_entry,
}
use tenant_trust.Orchestrator.Invalidation.Keys.{
  Scope, SubjectKeys, security_state_redis_keys, security_session_redis_key,
  subject_security_cache_redis_key, assert_scope,
}

-- INVALIDATING_ACTIONS.
abbrev pub invalidating_actions : List String
invalidating_actions = "suspend-subject" ∷ "revoke-certificate" ∷ []

-- SECURITY_STATE_INVALIDATION_POLICY.
abbrev pub invalidation_marker_ttl_seconds : ℕ
invalidation_marker_ttl_seconds = 604_800

abbrev pub maximum_entry_ttl_seconds : ℕ
maximum_entry_ttl_seconds = 86_400

pub record InvalidationRequest : Type 0 where
  pub scope : Scope
  pub action_id : String
  pub action_type : String

pub record Invalidated : Type 0 where
  pub applied : Bool
  pub sessions_invalidated : ℕ
  pub cache_entries_invalidated : ℕ
  pub invalidated_at : ℕ

abbrev pub arguments_of : SubjectKeys → String → Text → InvalidationArguments
arguments_of keys action_id printed = record {
  session_index = keys.session_index;
  cache_index = keys.cache_index;
  marker = keys.invalidation_marker;
  action_id = codes action_id;
  invalidated_at = printed;
  marker_ttl = invalidation_marker_ttl_seconds;
  session_prefix = keys.session_prefix;
  cache_prefix = keys.cache_prefix;
}

-- The checks of a request, with the arguments of the script.
unfoldable pub prepare_invalidation :
    Option Text → InvalidationRequest → Result InvalidationArguments
prepare_invalidation clock request = do
  assert_scope request.scope
  guard (matches_id "act_" request.action_id && includes invalidating_actions request.action_type)
      "SECURITY_INVALIDATION_REQUEST_INVALID"
  printed ← or_fail clock "SECURITY_INVALIDATION_TIME_INVALID"
  keys ← security_state_redis_keys request.scope
  ok (arguments_of keys request.action_id printed)

-- The reply of the script, with its instant read again by `new Date(text)`, which is a parameter: what it
-- makes of a text that no `Date` prints is left to the engine.
unfoldable pub read_reply : (Text → Option ℕ) → Result InvalidationReply → Result Invalidated
read_reply parse_date (err _) = err "SECURITY_INVALIDATION_REDIS_FAILED"
read_reply parse_date (ok reply) = do
  at ← or_fail (parse_date reply.at) "SECURITY_INVALIDATION_RESULT_INVALID"
  ok (record {
    applied = reply.applied;
    sessions_invalidated = reply.sessions;
    cache_entries_invalidated = reply.caches;
    invalidated_at = at;
  })

-- `ttl(value)`.
unfoldable pub entry_ttl : ℕ → Result ℕ
entry_ttl seconds = do
  guard (leb 1 seconds && leb seconds maximum_entry_ttl_seconds) "SECURITY_STATE_TTL_INVALID"
  ok seconds

unfoldable pub prepare_session : Scope → String → String → ℕ → Result (Text × Text × ℕ)
unfolding entry_ttl
prepare_session scope session_id_hash value ttl_seconds = do
  keys ← security_state_redis_keys scope
  key ← security_session_redis_key scope.tenant_id session_id_hash
  guard (leb 1 (utf_16_length (codes value)) && leb (utf_16_length (codes value)) 4_096)
      "SECURITY_SESSION_VALUE_INVALID"
  seconds ← entry_ttl ttl_seconds
  ok (key, keys.session_index, seconds)

unfoldable pub prepare_cache_entry : Scope → String → String → String → ℕ → Result (Text × Text × ℕ)
unfolding entry_ttl
prepare_cache_entry scope namespace cache_id value ttl_seconds = do
  keys ← security_state_redis_keys scope
  key ← subject_security_cache_redis_key scope.tenant_id namespace cache_id
  guard (leb (utf_16_length (codes value)) 65_536) "SECURITY_CACHE_VALUE_INVALID"
  seconds ← entry_ttl ttl_seconds
  ok (key, keys.cache_index, seconds)

module _ (redis : Redis) where
  unfoldable pub run_invalidation :
      (Text → Option ℕ)
      → Result InvalidationArguments
      → redis.State
      → Result Invalidated × redis.State
  unfolding read_reply invalidate_subject
  run_invalidation parse_date (err code) s = (err code, s)
  run_invalidation parse_date (ok arguments) s =
      let (reply, s') = invalidate_subject redis arguments s in (read_reply parse_date reply, s')

  unfoldable pub invalidate :
      (Text → Option ℕ)
      → Option Text
      → InvalidationRequest
      → redis.State
      → Result Invalidated × redis.State
  unfolding prepare_invalidation run_invalidation
  invalidate parse_date clock request s =
      run_invalidation parse_date (prepare_invalidation clock request) s

  -- The end of a registration: the key and the index, when the script has run.
  unfoldable pub register :
      Result (Text × Text × ℕ) → String → redis.State → Result (Text × Text) × redis.State
  register (err code) value s = (err code, s)
  register (ok (key, index, seconds)) value s =
      let (reply, s') = register_entry redis key index (codes value) seconds s in
      ((reply >> ok (key, index)), s')

  unfoldable pub register_session :
      Scope → String → String → ℕ → redis.State → Result (Text × Text) × redis.State
  unfolding register prepare_session
  register_session scope session_id_hash value ttl_seconds s =
      register (prepare_session scope session_id_hash value ttl_seconds) value s

  unfoldable pub register_cache_entry :
      Scope → String → String → String → ℕ → redis.State → Result (Text × Text) × redis.State
  unfolding register prepare_cache_entry
  register_cache_entry scope namespace cache_id value ttl_seconds s =
      register (prepare_cache_entry scope namespace cache_id value ttl_seconds) value s
