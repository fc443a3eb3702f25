-- ===== src/Orchestrator/Runs.antt =====
-- Runs of the worker of services/orchestrator/src/action-orchestration.mjs on the claim of a
-- revocation.
use tenant_trust.Orchestrator.Retries.{Settles, run_claimed-Settles}
use tenant_trust.Js.{matches_id}
use tenant_trust.Common.{
  ◌≤◌, ◌≡◌, refl, String, [], ◌∷◌, Option, none, some, true, arith, All, Result, ok, ◌<◌, ◌^◌,
}
use tenant_trust.Orchestrator.State.{
  SecurityActionState, suspended, blocked, revoked, required, initial_security_action_state,
  check_security_action_state,
}
use tenant_trust.Orchestrator.Actions.{revoke_certificate, severity_rule, transition}
use tenant_trust.Orchestrator.Execution.{
  Claim, Action, Services, RevocationResult, revoking, execute, confirm_revocation,
  is_external_reference,
}
use tenant_trust.Orchestrator.Worker.{
  Repository, StoredStatus, Success, Failure, service, marking_failed, marking_succeeded, success,
  failure, run_claimed, failure_code,
}
use tenant_trust.Orchestrator.Delivery.{Sound, Stored, run_claimed-Sound, run_claimed-Stored}

abbrev action_id : String
action_id = "act_00000000-0000-4000-8000-000000000001"

abbrev certificate_id : String
certificate_id = "crt_00000000-0000-4000-8000-000000000002"

abbrev claim : Claim
claim = record {
  tenant_id = "tnt_00000000-0000-4000-8000-000000000003";
  action_id = action_id;
  target_certificate_id = certificate_id;
  action_type = revoke_certificate;
  authority_class = severity_rule;
  attempt_count = 3;
  expected_state_version = 1;
  current_state = initial_security_action_state;
  recovery_authorization_id = none;
  recovery_authorized_by_subject_id = none;
  recovery_authorized_until = none;
}

abbrev pending : SecurityActionState
pending = record {
  access = suspended;
  renewal = blocked;
  target_certificate = revoked;
  replacement = required;
}

-- A service that revokes every certificate, and one that is not there.
abbrev revoke_any : Action → Result (Option RevocationResult)
revoke_any action = ok (
    some (record {
      certificate_id = action.claim.target_certificate_id;
      state = "revoked";
      event_id = "evt-1";
    }))

abbrev services : Services
services = record { revoke_certificate = some revoke_any; issue_replacement_certificate = none }

abbrev no_services : Services
no_services = record { revoke_certificate = none; issue_replacement_certificate = none }

abbrev stored_success : Success → Result StoredStatus
stored_success s = ok (record { status = "succeeded"; next_attempt_at = none })

abbrev stored_failure : Failure → Result StoredStatus
stored_failure f = ok (record { status = "failed"; next_attempt_at = some 20_000 })

abbrev repository : Repository
repository = record {
  claim_next = ok (some claim);
  mark_succeeded = stored_success;
  mark_failed = stored_failure;
}

abbrev action : Action
action = record { claim = claim; next_state = pending; changed = true }

revocation_run : run_claimed (execute services 0) repository (ok (some claim)) ≡ (
  service (revoking action)
      ∷ marking_succeeded
          (record { claim = claim; result_state = pending; external_reference = some "evt-1" })
      ∷ [],
  ok (success "succeeded" true pending (some "evt-1")),
)
unfolding run_claimed check_security_action_state transition execute matches_id confirm_revocation
    is_external_reference
revocation_run = refl

-- The third attempt fails, and the next one waits for 20 seconds.
unavailable_run : run_claimed (execute no_services 0) repository (ok (some claim)) ≡ (
  marking_failed (record {
    claim = claim;
    failure_code = "REVOCATION_EXECUTOR_UNAVAILABLE";
    retry_delay_seconds = 20;
  })
      ∷ [],
  ok (failure "failed" "REVOCATION_EXECUTOR_UNAVAILABLE" (some 20_000)),
)
unfolding run_claimed check_security_action_state transition execute matches_id failure_code
unavailable_run = refl

third_attempt : 1 ≤ 3
third_attempt = omega arith

third_attempt_safe : claim.attempt_count < 2 ^ 53
third_attempt_safe = omega arith

run_claimed-Settles_example :
    Settles repository claim (run_claimed (execute no_services 0) repository (ok (some claim)))
run_claimed-Settles_example =
    run_claimed-Settles (execute no_services 0) repository claim third_attempt third_attempt_safe

run_claimed-Sound_example :
    All (Sound claim 0) (run_claimed (execute services 0) repository (ok (some claim))).0
run_claimed-Sound_example = run_claimed-Sound services 0 repository claim

reported :
    (run_claimed (execute services 0) repository (ok (some claim))).1
    ≡ ok (success "succeeded" true pending (some "evt-1"))
unfolding run_claimed check_security_action_state transition execute matches_id confirm_revocation
    is_external_reference
reported = refl

run_claimed-Stored_example : Stored repository claim true pending (some "evt-1") "succeeded"
run_claimed-Stored_example = run_claimed-Stored (execute services 0) repository claim reported
