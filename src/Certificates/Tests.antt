-- ===== src/Certificates/Tests.antt =====
-- Runs of packages/certificate-status on one certificate of one member.
use tenant_trust.Certificates.Acceptance.{IsAccepted, validate-accept_iff}
use tenant_trust.Common.Int.{pos}
use tenant_trust.Certificates.Responses.{response_of, validate-response_of, validate-lifetime}
use tenant_trust.Access.Context.{reference, assert_no_tenant_switch, check_claims, is_text}
use tenant_trust.Certificates.Status.{
  Basis, Moment, Query, Verdict, certificate_status_safe_response, date_from, validate, Loaded,
  accepted, basis_of, denied_record, timeout, written, accept, active, denied, loaded, revoked,
  authoritative, stale, unavailable, trusted_certificate_context, validate_presented_certificate,
  is_presented,
}
use tenant_trust.Common.{◌≡◌, refl, ℕ, String, some, none, ok, err, true, ◌*◌, ◌+◌, ◌<◌, ◌↔◌, ◌≤◌}
use tenant_trust.Js.{
  Value, object, string, number, field, end, Fields, canonical_utc, finite, get, points, passes_id,
  is_serial, is_sha256, member, safe_integer, is_same_text, is_object,
}
use tenant_trust.Access.Tests.{alpha, alice_id, alice, one_context}

abbrev observed : String
observed = "2026-07-04T09:59:58.000Z"

abbrev fields_of : Fields
fields_of = field "tenantId" (string alpha) (
    field "subjectId" (string alice_id) (
      field "certificateId" (string "crt_00000000-0000-4000-8000-000000000004") (
        field "issuerId" (string "iss_00000000-0000-4000-8000-000000000005") (
          field "serialNumber" (string "0123456789ABCDEF0123456789ABCDEF") (
            field "fingerprintSha256"
              (string "0123456789abcdef0123456789abcdef0123456789abcdef0123456789abcdef")
              (field "notBefore" (string "2026-07-01T00:00:00.000Z")
                (field "notAfter" (string "2026-08-01T00:00:00.000Z") end)))))))

abbrev presented : Value
presented = object true fields_of

abbrev row_in : String → String → Value
row_in state at = object true (
    field "state" (string state) (
      field "version" (number (finite (pos (points 3))))
        (field "statusObservedAt" (string at) fields_of)))

abbrev inventory : Value → Query → Loaded
inventory row query = loaded row

abbrev noon : Moment
noon = written (string "2026-07-04T10:00:00.000Z")

abbrev basis : Basis
basis = basis_of alice presented (86_400_000 * 740_166 + 36_000_000)

abbrev active_verdict : Verdict
active_verdict =
    accepted basis 3 (86_400_000 * 740_166 + 35_998_000) (86_400_000 * 740_166 + 36_028_000)

abbrev revoked_verdict : Verdict
revoked_verdict =
    denied_record basis "CERTIFICATE_REVOKED" (some revoked) authoritative 3
      (86_400_000 * 740_166 + 35_998_000)

active_accepted :
    validate (inventory (row_in "active" observed)) noon (reference 0) presented one_context
    ≡ ok active_verdict
unfolding validate trusted_certificate_context assert_no_tenant_switch check_claims
    validate_presented_certificate is_presented passes_id get is_serial is_sha256 is_text
    canonical_utc member safe_integer is_same_text is_object
active_accepted = refl

revoked_denied :
    validate (inventory (row_in "revoked" observed)) noon (reference 0) presented one_context
    ≡ ok revoked_verdict
unfolding validate trusted_certificate_context assert_no_tenant_switch check_claims
    validate_presented_certificate is_presented passes_id get is_serial is_sha256 is_text
    canonical_utc member safe_integer is_same_text is_object
revoked_denied = refl

old_denied :
    validate
      (inventory (row_in "active" "2026-07-04T09:59:54.999Z"))
      noon
      (reference 0)
      presented
      one_context
    ≡ ok (
        denied_record basis "STATUS_SOURCE_STALE"
          (some active)
          stale
          3
          (86_400_000 * 740_166 + 35_994_999))
unfolding validate trusted_certificate_context assert_no_tenant_switch check_claims
    validate_presented_certificate is_presented passes_id get is_serial is_sha256 is_text
    canonical_utc member safe_integer is_same_text is_object
old_denied = refl

outage_denied :
    validate (λ q. timeout) noon (reference 0) presented one_context
    ≡ ok (denied basis "STATUS_SOURCE_TIMEOUT" none unavailable)
unfolding validate trusted_certificate_context assert_no_tenant_switch check_claims
    validate_presented_certificate is_presented passes_id get is_serial is_sha256 is_text
    canonical_utc is_object
outage_denied = refl

forged_refused :
    validate (λ q. timeout) noon (reference 7) presented one_context ≡ err "TENANT_CONTEXT_INVALID"
unfolding validate trusted_certificate_context assert_no_tenant_switch
forged_refused = refl

validate-accept_iff_example :
    ((validate (inventory (row_in "active" observed)) noon (reference 0) presented one_context
        ≡ ok active_verdict)
      × (active_verdict.outcome ≡ accept))
    ↔ IsAccepted
        (inventory (row_in "active" observed))
        noon
        (reference 0)
        presented
        one_context
        active_verdict
validate-accept_iff_example =
    validate-accept_iff (inventory (row_in "active" observed)) noon (reference 0) presented
      one_context active_verdict

validate-response_of_example :
    certificate_status_safe_response revoked_verdict
    ≡ response_of revoked_verdict.outcome revoked_verdict.source_status
validate-response_of_example =
    validate-response_of (inventory (row_in "revoked" observed)) noon (reference 0) presented
      one_context revoked_verdict revoked_denied

validate-lifetime_example :
    (checked_at deadline not_after : ℕ) × (date_from noon "STATUS_CHECK_TIME_INVALID"
      ≡ ok checked_at)
    × (active_verdict.cacheable_until ≡ some deadline)
    × (canonical_utc (get presented "notAfter") ≡ some not_after)
    × (checked_at < deadline)
    × (deadline ≤ not_after)
    × (deadline ≤ checked_at + 32_000)
validate-lifetime_example =
    validate-lifetime (inventory (row_in "active" observed)) noon (reference 0) presented
      one_context active_verdict active_accepted refl
