-- ===== src/Certificates/Status.antt =====
-- packages/certificate-status/src/index.mjs: the validation service of certificates. The repository
-- that loads the status of a certificate is a parameter, with what its race against the timeout
-- gives. An instant is a number of milliseconds. In the request and the record, times are texts.
use tenant_trust.Common.{
  ℕ, ◌+◌, ◌*◌, String, List, [], ◌∷◌, Option, none, some, Bool, ◌&&◌, ◌||◌, ltb, leb, if◌then◌else◌,
  includes, Result, ok, err, ◌>>=◌, ◌>>◌, guard, or_fail, all, with_code,
}
use tenant_trust.Js.{
  Value, array, get, is_object, is_falsy, canonical_utc, member, passes, passes_id, is_sha256,
  is_serial, is_same_text, nil,
}
use tenant_trust.Access.Context.{
  TenantContext, Store, ContextArgument, is_text, assert_no_tenant_switch, positive_version,
}

-- CERTIFICATE_STATUS_POLICY, as far as the checks read it.
abbrev pub maximum_source_age_seconds : ℕ
maximum_source_age_seconds = 5

abbrev pub future_clock_skew_seconds : ℕ
future_clock_skew_seconds = 2

abbrev pub accepted_result_lifetime_seconds : ℕ
accepted_result_lifetime_seconds = 30

pub data InventoryState : Type 0 where
  active : InventoryState
  revoked : InventoryState
  expired : InventoryState
  superseded : InventoryState

-- STATES.
abbrev pub states : List (String × InventoryState)
states =
    ("active", active)
    ∷ ("revoked", revoked)
    ∷ ("expired", expired)
    ∷ ("superseded", superseded)
    ∷ []

pub data SourceStatus : Type 0 where
  not_queried : SourceStatus
  unavailable : SourceStatus
  unknown_record : SourceStatus
  invalid : SourceStatus
  stale : SourceStatus
  authoritative : SourceStatus

pub data VerdictOutcome : Type 0 where
  accept : VerdictOutcome
  deny : VerdictOutcome

-- What `loadWithTimeout` gives.
pub data Loaded : Type 0 where
  timeout : Loaded
  error : Loaded
  loaded : Value → Loaded

pub record Query : Type 0 where
  pub tenant_id : String
  pub certificate_id : Value
  pub issuer_id : Value
  pub serial_number : Value
  pub fingerprint_sha256 : Value

pub record Presented : Type 0 where
  pub certificate : Value
  pub not_before : ℕ
  pub not_after : ℕ

-- `base`: what every verdict repeats.
pub record Basis : Type 0 where
  pub context : TenantContext
  pub certificate : Value
  pub checked_at : ℕ

-- A verdict; the inventory state "unknown" is `none`.
pub record Verdict : Type 0 where
  pub outcome : VerdictOutcome
  pub reason_code : String
  pub basis : Basis
  pub inventory_state : Option InventoryState
  pub source_status : SourceStatus
  pub status_version : Option ℕ
  pub status_observed_at : Option ℕ
  pub cacheable_until : Option ℕ

-- `trustedContext`: the errors of the tenant context are all reported with one code.
unfoldable pub trusted_certificate_context : ContextArgument → Store → Result TenantContext
trusted_certificate_context argument store =
    with_code (assert_no_tenant_switch argument (array nil) store) "TENANT_CONTEXT_INVALID"

-- `dateFrom` on a clock that gives a `Date`, which may be invalid, and on a text.
pub data Moment : Type 0 where
  date : Option ℕ → Moment
  written : Value → Moment

unfoldable pub date_from : Moment → String → Result ℕ
date_from (date o) code = or_fail o code
date_from (written v) code = or_fail (canonical_utc v) code

-- The object test and the patterns of `validatePresentedCertificate`.
unfoldable pub is_presented : TenantContext → Value → Bool
is_presented context certificate =
    is_object certificate
    && passes_id "crt_" (get certificate "certificateId")
    && passes_id "sub_" (get certificate "subjectId")
    && passes_id "iss_" (get certificate "issuerId")
    && passes is_serial (get certificate "serialNumber")
    && passes is_sha256 (get certificate "fingerprintSha256")
    && is_text (get certificate "tenantId") context.tenant_id
    && is_text (get certificate "subjectId") context.subject_id

unfoldable pub validate_presented_certificate : TenantContext → Value → Result Presented
unfolding date_from
validate_presented_certificate context certificate = do
  guard (is_presented context certificate) "PRESENTED_CERTIFICATE_INVALID"
  not_before ← date_from (written (get certificate "notBefore")) "PRESENTED_CERTIFICATE_INVALID"
  not_after ← date_from (written (get certificate "notAfter")) "PRESENTED_CERTIFICATE_INVALID"
  guard (ltb not_before not_after) "PRESENTED_CERTIFICATE_INVALID"
  ok (record { certificate = certificate; not_before = not_before; not_after = not_after })

-- `deny` with the defaults of `verdict`, and with the version and the instant of a record.
abbrev pub denied : Basis → String → Option InventoryState → SourceStatus → Verdict
denied basis code state status = record {
  outcome = deny;
  reason_code = code;
  basis = basis;
  inventory_state = state;
  source_status = status;
  status_version = none;
  status_observed_at = none;
  cacheable_until = none;
}

abbrev pub denied_record : Basis → String → Option InventoryState → SourceStatus → ℕ → ℕ → Verdict
denied_record basis code state status version observed_at =
    record (denied basis code state status) {
      status_version = some version;
      status_observed_at = some observed_at;
    }

abbrev pub accepted : Basis → ℕ → ℕ → ℕ → Verdict
accepted basis version observed_at deadline = record {
  outcome = accept;
  reason_code = "CERTIFICATE_ACTIVE";
  basis = basis;
  inventory_state = some active;
  source_status = authoritative;
  status_version = some version;
  status_observed_at = some observed_at;
  cacheable_until = some deadline;
}

-- The comparison of a record with the certificate.
unfoldable pub is_record_of : TenantContext → Value → Value → Bool
is_record_of context certificate row =
    is_text (get row "tenantId") context.tenant_id
    && all (λ key. is_same_text (get row key) (get certificate key))
        ("certificateId" ∷ "subjectId" ∷ "issuerId" ∷ "serialNumber" ∷ "fingerprintSha256"
          ∷ "notBefore" ∷ "notAfter" ∷ [])

-- The first test of a record: its state and its version, when it is that of the certificate.
unfoldable pub read_record : TenantContext → Value → Value → Option (InventoryState × ℕ)
unfolding is_record_of
read_record context certificate row = elim (member states (get row "state")) [
  | none ↦ none
  | some state ↦ elim (positive_version (get row "version")) [
    | none ↦ none
    | some version ↦ if is_record_of context certificate row then some (state, version) else none
  ]
]

-- The age of the source, with the test on a negative age written without a subtraction.
unfoldable pub is_stale : ℕ → ℕ → Bool
is_stale checked_at observed_at =
    ltb (observed_at + maximum_source_age_seconds * 1_000) checked_at
    || ltb (checked_at + future_clock_skew_seconds * 1_000) observed_at

abbrev pub min : ℕ → ℕ → ℕ
min a b = if leb a b then a else b

unfoldable pub cache_deadline : ℕ → ℕ → ℕ
cache_deadline observed_at not_after =
    min (observed_at + accepted_result_lifetime_seconds * 1_000) not_after

-- The verdict on a record that is fresh.
unfoldable pub judge_state : Basis → ℕ → InventoryState → ℕ → ℕ → Verdict
unfolding cache_deadline
judge_state basis not_after revoked version observed_at =
    denied_record basis "CERTIFICATE_REVOKED" (some revoked) authoritative version observed_at
judge_state basis not_after expired version observed_at =
    denied_record basis "CERTIFICATE_EXPIRED" (some expired) authoritative version observed_at
judge_state basis not_after superseded version observed_at =
    denied_record basis "CERTIFICATE_SUPERSEDED" (some superseded) authoritative version observed_at
judge_state basis not_after active version observed_at =
    if leb (cache_deadline observed_at not_after) basis.checked_at
    then denied_record basis "STATUS_SOURCE_STALE" (some active) stale version observed_at
    else accepted basis version observed_at (cache_deadline observed_at not_after)

unfoldable pub judge_record : Basis → ℕ → InventoryState → ℕ → Option ℕ → Verdict
unfolding is_stale judge_state
judge_record basis not_after state version none =
    denied basis "STATUS_SOURCE_INVALID" (some state) invalid
judge_record basis not_after state version (some observed_at) =
    if is_stale basis.checked_at observed_at
    then denied_record basis "STATUS_SOURCE_STALE" (some state) stale version observed_at
    else judge_state basis not_after state version observed_at

unfoldable pub judge : Basis → ℕ → Loaded → Verdict
unfolding read_record judge_record is_falsy
judge basis not_after timeout = denied basis "STATUS_SOURCE_TIMEOUT" none unavailable
judge basis not_after error = denied basis "STATUS_SOURCE_UNAVAILABLE" none unavailable
judge basis not_after (loaded row) =
    if is_falsy row
    then denied basis "CERTIFICATE_UNKNOWN" none unknown_record
    else elim (read_record basis.context basis.certificate row) [
      | none ↦ denied basis "STATUS_SOURCE_INVALID" none invalid
      | some (state, version) ↦
          judge_record basis not_after state version (canonical_utc (get row "statusObservedAt"))
    ]

abbrev pub query_of : TenantContext → Value → Query
query_of context certificate = record {
  tenant_id = context.tenant_id;
  certificate_id = get certificate "certificateId";
  issuer_id = get certificate "issuerId";
  serial_number = get certificate "serialNumber";
  fingerprint_sha256 = get certificate "fingerprintSha256";
}

abbrev pub basis_of : TenantContext → Value → ℕ → Basis
basis_of context certificate checked_at = record {
  context = context;
  certificate = certificate;
  checked_at = checked_at;
}

-- The period of the certificate comes before the query.
unfoldable pub check_period : (Query → Loaded) → Basis → Presented → Verdict
unfolding judge
check_period load basis presented =
    if ltb basis.checked_at presented.not_before
    then denied basis "CERTIFICATE_NOT_YET_VALID" none not_queried
    else if leb presented.not_after basis.checked_at
    then denied basis "CERTIFICATE_EXPIRED" (some expired) not_queried
    else judge basis presented.not_after (load (query_of basis.context basis.certificate))

-- `validate`, with the clock at a moment.
unfoldable pub validate :
    (Query → Loaded) → Moment → ContextArgument → Value → Store → Result Verdict
unfolding check_period
validate load clock argument certificate store = do
  context ← trusted_certificate_context argument store
  presented ← validate_presented_certificate context certificate
  checked_at ← date_from clock "STATUS_CHECK_TIME_INVALID"
  ok (check_period load (basis_of context certificate checked_at) presented)

-- `certificateStatusSafeResponse`: the status code and the code of the response.
unfoldable pub certificate_status_safe_response : Verdict → Result (ℕ × String)
certificate_status_safe_response verdict = elim verdict.outcome [
  | accept ↦ err "STATUS_RESULT_INVALID"
  | deny ↦
      if includes
        ("STATUS_SOURCE_TIMEOUT" ∷ "STATUS_SOURCE_UNAVAILABLE" ∷ "STATUS_SOURCE_INVALID"
          ∷ "STATUS_SOURCE_STALE" ∷ [])
        verdict.reason_code
      then ok (503, "CERTIFICATE_STATUS_UNAVAILABLE")
      else ok (401, "CERTIFICATE_NOT_ACCEPTED")
]
