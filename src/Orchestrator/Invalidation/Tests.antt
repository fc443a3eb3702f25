-- ===== src/Orchestrator/Invalidation/Tests.antt =====
-- Runs of services/orchestrator/src/security-state-invalidation.mjs on a Redis in memory.
use tenant_trust.Orchestrator.Worker.{is_reason_code}
use tenant_trust.Orchestrator.Invalidation.Scripts.{register_entry}
use tenant_trust.Js.{matches_id, is_sha256, parse_utc}
use tenant_trust.Orchestrator.Invalidation.Registered.{register_session-invalidate}
use tenant_trust.Orchestrator.Invalidation.Once.{invalidate-once, invalidate-Purges}
use tenant_trust.Orchestrator.Invalidation.Redis.{absent}
use tenant_trust.Orchestrator.Invalidation.Delivery.{
  InvalidationSound, run_invalidation_claim-InvalidationSound,
}
use tenant_trust.Orchestrator.Invalidation.Worker.{
  InvalidationClaim, InvalidationRepository, run_invalidation_claim, completed, completing, failing,
  failed,
}
use tenant_trust.Orchestrator.Invalidation.Text.{
  Text, text_eq, encode_component, starts_with, split_bar,
}
use tenant_trust.Orchestrator.Invalidation.Store.{
  Invalidated, InvalidationRequest, invalidate, register_session,
}
use tenant_trust.Orchestrator.Invalidation.Purge.{Purges}
use tenant_trust.Orchestrator.Invalidation.Memory.{
  Memory, memory, memory-IsRedis, memory_view, store, memory_sadd,
}
use tenant_trust.Orchestrator.Invalidation.Keys.{
  Scope, security_state_redis_keys, security_session_redis_key, assert_scope,
}
use tenant_trust.Orchestrator.Invalidation.Completion.{Confirmed, run_invalidation_claim-Confirmed}
use tenant_trust.Common.{
  ℕ, ◌≡◌, refl, String, [], ◌∷◌, ◌++◌, none, some, true, false, ok, codes, All, Result, ◌*◌, ◌+◌,
  arith, utf_16_length,
}

abbrev scope : Scope
scope = record {
  tenant_id = "tnt_00000000-0000-4000-8000-000000000001";
  subject_id = "sub_00000000-0000-4000-8000-000000000003";
}

abbrev suspension : InvalidationRequest
suspension = record {
  scope = scope;
  action_id = "act_00000000-0000-4000-8000-000000000007";
  action_type = "suspend-subject";
}

abbrev session_hash : String
session_hash = "0123456789abcdef0123456789abcdef0123456789abcdef0123456789abcdef"

abbrev empty_memory : Memory
empty_memory = record { now = 0; entry = λ k. record { slot = absent; expires = none } }

abbrev session_key : Text
session_key = codes "tenant:tnt_00000000-0000-4000-8000-000000000001:session:" ++ codes session_hash

abbrev session_index : Text
session_index =
    codes
      "tenant:tnt_00000000-0000-4000-8000-000000000001:security-session-index:sub_00000000-0000-4000-8000-000000000003"

abbrev with_session : Memory
with_session = (register_session memory scope session_hash "alice" 600 empty_memory).1

session_registered :
    register_session memory scope session_hash "alice" 600 empty_memory
    ≡ (ok (session_key, session_index), with_session)
unfolding register_session security_state_redis_keys matches_id utf_16_length
    security_session_redis_key is_sha256 register_entry memory_view store text_eq encode_component
session_registered = refl

abbrev ten : Text
ten = codes "2026-07-04T10:00:00.000Z"

abbrev eleven : Text
eleven = codes "2026-07-04T11:00:00.000Z"

abbrev invalidated : Invalidated
invalidated = record {
  applied = true;
  sessions_invalidated = 1;
  cache_entries_invalidated = 0;
  invalidated_at = 86_400_000 * 740_166 + 36_000_000;
}

abbrev without_session : Memory
without_session = (invalidate memory parse_utc (some ten) suspension with_session).1

session_invalidated :
    invalidate memory parse_utc (some ten) suspension with_session
    ≡ (ok invalidated, without_session)
unfolding invalidate assert_scope matches_id security_state_redis_keys utf_16_length memory_view
    register_session security_session_redis_key is_sha256 register_entry store text_eq memory_sadd
    encode_component starts_with parse_utc
session_invalidated = refl

-- The marker names one action: after another action of the subject, the first is applied again.
abbrev revocation : InvalidationRequest
revocation = record {
  scope = scope;
  action_id = "act_00000000-0000-4000-8000-000000000009";
  action_type = "revoke-certificate";
}

abbrev revoked_memory : Memory
revoked_memory = (invalidate memory parse_utc (some ten) revocation without_session).1

replay_applied :
    (invalidate memory parse_utc (some eleven) suspension revoked_memory).0
    ≡ ok (record {
      applied = true;
      sessions_invalidated = 0;
      cache_entries_invalidated = 0;
      invalidated_at = 86_400_000 * 740_166 + 39_600_000;
    })
unfolding invalidate assert_scope matches_id security_state_redis_keys utf_16_length memory_view
    register_session security_session_redis_key is_sha256 register_entry store text_eq memory_sadd
    encode_component starts_with parse_utc split_bar
replay_applied = refl

invalidate-Purges_example :
    Purges memory memory-IsRedis scope "act_00000000-0000-4000-8000-000000000007" ten with_session
      without_session
invalidate-Purges_example =
    invalidate-Purges memory memory-IsRedis parse_utc ten suspension with_session invalidated
      without_session session_invalidated refl

invalidate-once_example :
    invalidate memory parse_utc (some eleven) suspension (memory.wait 3_600 without_session) ≡ (
      ok (record invalidated {
        applied = false;
        sessions_invalidated = 0;
        cache_entries_invalidated = 0;
      }),
      memory.wait 3_600 without_session,
    )
invalidate-once_example =
    invalidate-once memory memory-IsRedis parse_utc ten eleven suspension with_session invalidated
      without_session 3_600 session_invalidated refl (omega arith)

register_session-invalidate_example : memory.view session_key without_session ≡ absent
register_session-invalidate_example =
    register_session-invalidate memory memory-IsRedis parse_utc suspension session_hash "alice" 600
      empty_memory session_key session_index with_session ten invalidated without_session
      session_registered session_invalidated refl

-- A claim on that action, 1.25 seconds after it, and a repository that confirms a delay.
abbrev suspension_claim : InvalidationClaim
suspension_claim = record {
  tenant_id = scope.tenant_id;
  action_id = suspension.action_id;
  subject_id = scope.subject_id;
  certificate_id = "crt_00000000-0000-4000-8000-000000000004";
  action_type = "suspend-subject";
  claim_token = "icl_00000000-0000-4000-8000-000000000008";
  attempt_count = 1;
  action_succeeded_at = 86_400_000 * 740_166 + 35_998_750;
}

abbrev confirming : ℕ → InvalidationRepository
confirming delay = record {
  claim_next = ok (some suspension_claim);
  mark_completed = λ c r. ok (record {
    status = "completed";
    enforcement_delay_ms = some delay;
    within_target = some true;
  });
  mark_failed =
      λ f. ok (record { status = "failed"; enforcement_delay_ms = none; within_target = none });
}

-- A store with the result of that invalidation.
abbrev redis_store : InvalidationClaim → Result Invalidated
redis_store claim = ok invalidated

claim_completed :
    (run_invalidation_claim (confirming 1_250) redis_store (ok (some suspension_claim))).1
    ≡ ok (completed suspension_claim invalidated 1_250 true)
unfolding run_invalidation_claim
claim_completed = refl

-- Another delay than that of the run is a failure that is tried again after a second.
claim_failed :
    run_invalidation_claim (confirming 1_000) redis_store (ok (some suspension_claim)) ≡ (
      completing suspension_claim invalidated
          ∷ failing (record {
            claim = suspension_claim;
            failure_code = "SECURITY_INVALIDATION_COMPLETION_INVALID";
            retry_delay_seconds = 1;
          })
          ∷ [],
      ok (failed "failed" suspension_claim "SECURITY_INVALIDATION_COMPLETION_INVALID"),
    )
unfolding run_invalidation_claim is_reason_code
claim_failed = refl

run_invalidation_claim-InvalidationSound_example :
    All
      (InvalidationSound redis_store suspension_claim)
      (run_invalidation_claim (confirming 1_000) redis_store (ok (some suspension_claim))).0
run_invalidation_claim-InvalidationSound_example =
    run_invalidation_claim-InvalidationSound (confirming 1_000) redis_store suspension_claim

run_invalidation_claim-Confirmed_example :
    (suspension_claim ≡ suspension_claim)
    × Confirmed (confirming 1_250) redis_store suspension_claim invalidated 1_250 true
run_invalidation_claim-Confirmed_example =
    run_invalidation_claim-Confirmed (confirming 1_250) redis_store suspension_claim
      suspension_claim invalidated 1_250 true claim_completed
