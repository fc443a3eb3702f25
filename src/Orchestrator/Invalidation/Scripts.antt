-- ===== src/Orchestrator/Invalidation/Scripts.antt =====
-- services/orchestrator/src/security-state-invalidation.mjs: the two Lua scripts, over the commands
-- of Redis. A command on a key of another type fails; what the script has written stays.
use tenant_trust.Common.{
  ℕ, ◌+◌, String, List, [], ◌∷◌, ◌++◌, Option, none, some, Bool, true, false, ltb, all,
  if◌then◌else◌, Result, ok, err, ◌>>=◌, ◌>>◌, guard,
}
use tenant_trust.Orchestrator.Invalidation.Text.{Text, text_eq, starts_with, split_bar}
use tenant_trust.Orchestrator.Invalidation.Redis.{Slot, absent, text, members, Redis}

abbrev pub wrong_type : String
wrong_type = "WRONGTYPE"

-- GET and SMEMBERS.
abbrev pub get_text : Slot → Result (Option Text)
get_text absent = ok none
get_text (text t) = ok (some t)
get_text (members _) = err wrong_type

abbrev pub get_members : Slot → Result (List Text)
get_members absent = ok []
get_members (text _) = err wrong_type
get_members (members xs) = ok xs

-- ARGV and KEYS of INVALIDATE_SUBJECT_LUA.
pub record InvalidationArguments : Type 0 where
  pub session_index : Text
  pub cache_index : Text
  pub marker : Text
  pub action_id : Text
  pub invalidated_at : Text
  pub marker_ttl : ℕ
  pub session_prefix : Text
  pub cache_prefix : Text

pub record InvalidationReply : Type 0 where
  pub applied : Bool
  pub sessions : ℕ
  pub caches : ℕ
  pub at : Text

-- The instant of a marker with the action's identifier before its bar.
unfoldable pub named_time : Text → Option (Text × Text) → Option Text
named_time action_id none = none
named_time action_id (some (id, at)) = if text_eq id action_id then some at else none

unfoldable pub prior_time : Text → Option Text → Option Text
unfolding named_time
prior_time action_id none = none
prior_time action_id (some prior) = named_time action_id (split_bar prior)

module _ (redis : Redis) where
  -- The loop of DEL over keys, with the count.
  unfoldable pub delete_all : List Text → redis.State → ℕ × redis.State
  delete_all [] s = (0, s)
  delete_all (k ∷ ks) s =
      let (n, s1) = redis.del k s in let (m, s2) = delete_all ks s1 in (n + m, s2)

  unfoldable pub delete_subject :
      InvalidationArguments
      → List Text
      → List Text
      → redis.State
      → Result InvalidationReply × redis.State
  unfolding delete_all
  delete_subject a sessions caches s =
      let (session_count, s1) = delete_all sessions s in
      let (cache_count, s2) = delete_all caches s1 in
      let (_, s3) = redis.del a.session_index s2 in
      let (_, s4) = redis.del a.cache_index s3 in
      (
        ok (record {
          applied = true;
          sessions = session_count;
          caches = cache_count;
          at = a.invalidated_at;
        }),
        redis.set a.marker (a.action_id ++ b'|' ∷ a.invalidated_at) a.marker_ttl s4,
      )

  -- The checks of the scopes, which come before anything is written.
  unfoldable pub check_scopes : InvalidationArguments → redis.State → Result (List Text × List Text)
  check_scopes a s = do
    sessions ← get_members (redis.view a.session_index s)
    caches ← get_members (redis.view a.cache_index s)
    guard (all (starts_with a.session_prefix) sessions) "INVALID_SESSION_SCOPE"
    guard (all (starts_with a.cache_prefix) caches) "INVALID_CACHE_SCOPE"
    ok (sessions, caches)

  -- What follows the test of the marker, from the scopes that were read.
  unfoldable pub apply_invalidation :
      InvalidationArguments
      → Result (List Text × List Text)
      → redis.State
      → Result InvalidationReply × redis.State
  unfolding delete_subject
  apply_invalidation a (err code) s = (err code, s)
  apply_invalidation a (ok (sessions, caches)) s = delete_subject a sessions caches s

  -- The test of the marker: an action that it names is not applied again.
  unfoldable pub apply_once :
      InvalidationArguments → Option Text → redis.State → Result InvalidationReply × redis.State
  unfolding check_scopes apply_invalidation
  apply_once a (some at) s = (ok (record { applied = false; sessions = 0; caches = 0; at = at }), s)
  apply_once a none s = apply_invalidation a (check_scopes a s) s

  unfoldable pub apply_marked :
      InvalidationArguments
      → Result (Option Text)
      → redis.State
      → Result InvalidationReply × redis.State
  unfolding prior_time apply_once
  apply_marked a (err code) s = (err code, s)
  apply_marked a (ok prior) s = apply_once a (prior_time a.action_id prior) s

  -- INVALIDATE_SUBJECT_LUA.
  unfoldable pub invalidate_subject :
      InvalidationArguments → redis.State → Result InvalidationReply × redis.State
  unfolding apply_marked
  invalidate_subject a s = apply_marked a (get_text (redis.view a.marker s)) s

  -- REGISTER_ENTRY_LUA: a TTL that the caller has checked is a number from 1 up.
  abbrev pub raise_ttl : Text → ℕ → redis.State → redis.State
  raise_ttl index entry_ttl s = elim (redis.ttl index s) [
    | none ↦ redis.expire index entry_ttl s
    | some left ↦ if ltb left entry_ttl then redis.expire index entry_ttl s else s
  ]

  unfoldable pub finish_registration :
      Text → Text → ℕ → Result (List Text) → redis.State → Result (Unit {0}) × redis.State
  finish_registration key index entry_ttl (err code) s = (err code, s)
  finish_registration key index entry_ttl (ok _) s =
      (ok tt, raise_ttl index entry_ttl (redis.sadd index key s))

  unfoldable pub register_entry :
      Text → Text → Text → ℕ → redis.State → Result (Unit {0}) × redis.State
  unfolding finish_registration
  register_entry key index value entry_ttl s =
      let s1 = redis.set key value entry_ttl s in
      finish_registration key index entry_ttl (get_members (redis.view index s1)) s1
