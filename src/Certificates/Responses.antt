-- ===== src/Certificates/Responses.antt =====
-- packages/certificate-status/src/index.mjs: what a client is told of a denial, and how long an
-- acceptance may be kept.
use tenant_trust.Certificates.Acceptance.{validate-accept_iff}
use tenant_trust.Access.Context.{ContextArgument, Store, TenantContext}
use tenant_trust.Common.{
  ℕ, ◌+◌, ◌≤◌, ◌<◌, ◌≡◌, refl, inl, inr, Option, none, some, Bool, true, false, arith, ok, err,
  >>=-eq-ok, Bool-cases, ltb, leb, if◌then◌else◌, Result, String, Option-cases, ap, guard, subst,
  or_fail, or_fail-eq-ok, ◌∙◌,
}
use tenant_trust.Js.{Value, get, canonical_utc, is_falsy}
use tenant_trust.Certificates.Status.{
  InventoryState, active, revoked, expired, superseded, SourceStatus, unavailable, invalid, stale,
  VerdictOutcome, accept, deny, judge, judge_record, judge_state, check_period, validate,
  certificate_status_safe_response, Verdict, Basis, Query, Loaded, cache_deadline, is_stale, Moment,
  Presented, query_of, loaded, validate_presented_certificate, date_from,
  trusted_certificate_context, basis_of, read_record, is_presented, timeout, error,
}

-- Whether a source gave no answer that can be relied on.
abbrev is_unreliable : SourceStatus → Bool
is_unreliable unavailable = true
is_unreliable invalid = true
is_unreliable stale = true
is_unreliable _ = false

-- The response by the source alone: 503 when the source cannot be relied on, and otherwise 401.
abbrev pub response_of : VerdictOutcome → SourceStatus → Result (ℕ × String)
response_of accept source = err "STATUS_RESULT_INVALID"
response_of deny source =
    if is_unreliable source
    then ok (503, "CERTIFICATE_STATUS_UNAVAILABLE")
    else ok (401, "CERTIFICATE_NOT_ACCEPTED")

abbrev Told : Verdict → Type 0
Told v = certificate_status_safe_response v ≡ response_of v.outcome v.source_status

judge_state-Told :
    (basis : Basis) (not_after : ℕ) (s : InventoryState) (version o : ℕ)
    → Told (judge_state basis not_after s version o)
unfolding judge_state certificate_status_safe_response
judge_state-Told basis not_after revoked version o = refl
judge_state-Told basis not_after expired version o = refl
judge_state-Told basis not_after superseded version o = refl
judge_state-Told basis not_after active version o =
    elim (Bool-cases (leb (cache_deadline o not_after) basis.checked_at)) [
      | inl y ↦ rw y refl
      | inr n ↦ rw n refl
    ]

judge_record-Told :
    (basis : Basis) (not_after : ℕ) (s : InventoryState) (version : ℕ) (observed : Option ℕ)
    → Told (judge_record basis not_after s version observed)
unfolding judge_record certificate_status_safe_response
judge_record-Told basis not_after s version none = refl
judge_record-Told basis not_after s version (some o) =
    elim (Bool-cases (is_stale basis.checked_at o)) [
      | inl y ↦ rw y refl
      | inr n ↦ rw n (judge_state-Told basis not_after s version o)
    ]

judge-Told : (basis : Basis) (not_after : ℕ) (l : Loaded) → Told (judge basis not_after l)
unfolding judge certificate_status_safe_response
judge-Told basis not_after timeout = refl
judge-Told basis not_after error = refl
judge-Told basis not_after (loaded row) = elim (Bool-cases (is_falsy row)) [
  | inl y ↦ rw y refl
  | inr n ↦ elim (Option-cases (read_record basis.context basis.certificate row)) [
    | inl e ↦ rw (n, e) refl
    | inr ((s, version), e) ↦
        rw (n, e)
          (judge_record-Told basis not_after s version (canonical_utc (get row "statusObservedAt")))
  ]
]

check_period-Told :
    (load : Query → Loaded) (basis : Basis) (p : Presented) → Told (check_period load basis p)
unfolding check_period certificate_status_safe_response
check_period-Told load basis p = elim (Bool-cases (ltb basis.checked_at p.not_before)) [
  | inl y ↦ rw y refl
  | inr n ↦ elim (Bool-cases (leb p.not_after basis.checked_at)) [
    | inl y ↦ rw (n, y) refl
    | inr m ↦
        rw (n, m) (judge-Told basis p.not_after (load (query_of basis.context basis.certificate)))
  ]
]

-- The response for a verdict that validate returns is an error on an acceptance, 503 on a denial
-- whose source was unavailable, invalid or stale, and 401 on any other denial.
pub validate-response_of :
    (load : Query → Loaded) (clock : Moment) (argument : ContextArgument) (certificate : Value)
    (store : Store) (v : Verdict)
    → validate load clock argument certificate store ≡ ok v
    → certificate_status_safe_response v ≡ response_of v.outcome v.source_status
unfolding validate
validate-response_of load clock argument certificate store v h =
    let (context, _, h1) = >>=-eq-ok (trusted_certificate_context argument store) _ h in
    let (p, _, h2) = >>=-eq-ok (validate_presented_certificate context certificate) _ h1 in
    let (t, _, h3) = >>=-eq-ok (date_from clock "STATUS_CHECK_TIME_INVALID") _ h2 in
    let result : check_period load (basis_of context certificate t) p ≡ v = cc in
    subst (λ w. Told w) result (check_period-Told load (basis_of context certificate t) p)

validate_presented_certificate-not_after :
    (context : TenantContext) (certificate : Value) (p : Presented)
    → validate_presented_certificate context certificate ≡ ok p
    → canonical_utc (get certificate "notAfter") ≡ some p.not_after
unfolding validate_presented_certificate date_from
validate_presented_certificate-not_after context certificate p h =
    let (_, _, h1) = >>=-eq-ok (guard (is_presented context certificate) _) _ h in
    let (b, _, h2) = >>=-eq-ok (or_fail (canonical_utc (get certificate "notBefore")) _) _ h1 in
    let (a, after, h3) = >>=-eq-ok (or_fail (canonical_utc (get certificate "notAfter")) _) _ h2 in
    let (_, _, h4) = >>=-eq-ok (guard (ltb b a) _) _ h3 in
    let same : a ≡ p.not_after = cc in
    or_fail-eq-ok (canonical_utc (get certificate "notAfter")) _ after ∙ ap some same

cache_deadline-bounds :
    (t o n : ℕ)
    → t < cache_deadline o n
    → o ≤ t + 2_000
    → (t < cache_deadline o n) × (cache_deadline o n ≤ n) × (cache_deadline o n ≤ t + 32_000)
unfolding cache_deadline
cache_deadline-bounds t o n h k = ground arith

-- An acceptance that validate returns may be kept until a deadline that lies after the check, at
-- most 32 seconds after it, and not after the end of the certificate.
pub validate-lifetime :
    (load : Query → Loaded) (clock : Moment) (argument : ContextArgument) (certificate : Value)
    (store : Store) (v : Verdict)
    → validate load clock argument certificate store ≡ ok v
    → v.outcome ≡ accept
    → (checked_at deadline not_after : ℕ) × (date_from clock "STATUS_CHECK_TIME_INVALID"
        ≡ ok checked_at)
      × (v.cacheable_until ≡ some deadline)
      × (canonical_utc (get certificate "notAfter") ≡ some not_after)
      × (checked_at < deadline)
      × (deadline ≤ not_after)
      × (deadline ≤ checked_at + 32_000)
validate-lifetime load clock argument certificate store v h a =
    let k = (validate-accept_iff load clock argument certificate store v).0 (h, a) in
    let after =
      validate_presented_certificate-not_after k.context certificate k.presented k.was_presented in
    let (usable, limit, kept) =
      cache_deadline-bounds k.checked_at k.supported.observed_at k.presented.not_after
        k.supported.usable k.supported.not_ahead in
    (
      k.checked_at,
      cache_deadline k.supported.observed_at k.presented.not_after,
      k.presented.not_after,
      k.checked,
      ap (λ (w : Verdict). w.cacheable_until) k.supported.result,
      after,
      usable,
      limit,
      kept,
    )
