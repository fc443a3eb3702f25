-- ===== src/Orchestrator/Invalidation/Keys.antt =====
-- services/orchestrator/src/security-state-invalidation.mjs: the keys of a tenant in Redis.
use tenant_trust.Common.{
  ℕ, ◌≡◌, ◌≢◌, refl, String, List, [], ◌∷◌, ◌++◌, Bool, true, false, ◌&&◌, ◌||◌, leb, all, codes,
  length, Result, ok, guard, ◌>>=◌, ◌>>◌, ◌==◌, arith, ◌∙◌, sym, utf_16_length,
}
use tenant_trust.Js.{matches_id, is_sha256, is_small_code, is_digit_code}
use tenant_trust.Orchestrator.Invalidation.Text.{Text, encode_component, starts_with}

pub record Scope : Type 0 where
  pub tenant_id : String
  pub subject_id : String

pub record SubjectKeys : Type 0 where
  pub session_index : Text
  pub cache_index : Text
  pub invalidation_marker : Text
  pub session_prefix : Text
  pub cache_prefix : Text

-- `keyPart(value, label)`.
unfoldable pub key_part : String → Result Text
key_part value = do
  guard (leb 1 (utf_16_length (codes value)) && leb (utf_16_length (codes value)) 255) "TypeError"
  ok (encode_component (codes value))

unfoldable pub assert_scope : Scope → Result (Unit {0})
assert_scope scope =
    guard (matches_id "tnt_" scope.tenant_id && matches_id "sub_" scope.subject_id)
      "SECURITY_INVALIDATION_SCOPE_INVALID"

-- `tenant:${tenantId}:` and what follows it.
abbrev pub tenant_key : String → Text → Text
tenant_key tenant_id rest = codes "tenant:" ++ codes tenant_id ++ b':' ∷ rest

abbrev pub subject_keys : String → Text → SubjectKeys
subject_keys tenant_id subject = record {
  session_index = tenant_key tenant_id (codes "security-session-index:" ++ subject);
  cache_index = tenant_key tenant_id (codes "security-cache-index:" ++ subject);
  invalidation_marker = tenant_key tenant_id (codes "security-invalidation:" ++ subject);
  session_prefix = tenant_key tenant_id (codes "session:");
  cache_prefix = tenant_key tenant_id (codes "cache:");
}

unfoldable pub security_state_redis_keys : Scope → Result SubjectKeys
unfolding assert_scope key_part
security_state_redis_keys scope = do
  assert_scope scope
  subject ← key_part scope.subject_id
  ok (subject_keys scope.tenant_id subject)

unfoldable pub security_session_redis_key : String → String → Result Text
security_session_redis_key tenant_id session_id_hash = do
  guard (matches_id "tnt_" tenant_id && is_sha256 session_id_hash) "SECURITY_SESSION_KEY_INVALID"
  ok (tenant_key tenant_id (codes "session:" ++ codes session_id_hash))

-- CACHE_NAMESPACE: from 1 to 64 small letters, digits and dashes, the first a letter.
abbrev starts_namespace : List ℕ → Bool
starts_namespace [] = false
starts_namespace (c ∷ cs) =
    is_small_code c && all (λ d. is_small_code d || is_digit_code d || d == b'-') cs

unfoldable pub is_cache_namespace : String → Bool
is_cache_namespace s = starts_namespace (codes s) && leb (length (codes s)) 64

unfoldable pub subject_security_cache_redis_key : String → String → String → Result Text
unfolding key_part
subject_security_cache_redis_key tenant_id namespace cache_id = do
  guard (matches_id "tnt_" tenant_id && is_cache_namespace namespace) "SECURITY_CACHE_KEY_INVALID"
  cache ← key_part cache_id
  ok (tenant_key tenant_id (codes "cache:" ++ codes namespace ++ b':' ∷ cache))

starts_with-cancel : (s t u : Text) → starts_with (s ++ t) (s ++ u) ≡ starts_with t u
unfolding starts_with
starts_with-cancel [] t u = refl
starts_with-cancel (c ∷ cs) t u = grind (arith, starts_with-cancel cs t u)

pub starts_with-tenant_key :
    (tenant_id : String) (t u : Text)
    → starts_with (tenant_key tenant_id t) (tenant_key tenant_id u) ≡ starts_with t u
unfolding starts_with
starts_with-tenant_key tenant_id t u =
    starts_with-cancel (codes "tenant:") (codes tenant_id ++ b':' ∷ t) (codes tenant_id ++ b':' ∷ u)
    ∙ starts_with-cancel (codes tenant_id) (b':' ∷ t) (b':' ∷ u)

-- A key with a prefix of the tenant is not a key of the tenant with another prefix.
pub outside :
    (tenant_id : String) (p u : Text) (j : Text)
    → starts_with (tenant_key tenant_id p) j ≡ true
    → starts_with p u ≡ false
    → j ≢ tenant_key tenant_id u
outside tenant_id p u j h n e =
    let inside : starts_with (tenant_key tenant_id p) (tenant_key tenant_id u) ≡ true = rw e at h in
    let clash : false ≡ true = sym (starts_with-tenant_key tenant_id p u ∙ n) ∙ inside in cc
