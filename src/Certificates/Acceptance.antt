-- ===== src/Certificates/Acceptance.antt =====
-- packages/certificate-status/src/index.mjs: when a certificate is accepted.
use tenant_trust.Common.{
  ℕ, ◌+◌, ◌≤◌, ◌<◌, ◌≡◌, refl, ◌↔◌, Option, none, some, false, arith, ok, >>=-eq-ok, Bool-cases,
  ltb, leb, inl, inr, Option-cases, sym, ◌∙◌, ap, subst,
}
use tenant_trust.Js.{Value, get, canonical_utc, is_falsy}
use tenant_trust.Access.Context.{TenantContext, Store, ContextArgument}
use tenant_trust.Certificates.Status.{
  InventoryState, active, revoked, expired, superseded, accept, deny, Loaded, timeout, error,
  loaded, Query, Presented, Basis, Verdict, Moment, trusted_certificate_context, date_from,
  validate_presented_certificate, accepted, read_record, is_stale, cache_deadline, judge_state,
  judge_record, judge, query_of, check_period, validate, basis_of,
}

-- A record that supports the acceptance of a certificate at an instant: it is the record of the
-- certificate, active, observed at most 5 seconds before the instant and at most 2 seconds after
-- it, and its result may still be used.
pub record Supports (basis : Basis) (not_after : ℕ) (row : Value) (v : Verdict) : Type 0 where
  pub version : ℕ
  pub observed_at : ℕ
  pub is_row : is_falsy row ≡ false
  pub is_active : read_record basis.context basis.certificate row ≡ some (active, version)
  pub observed : canonical_utc (get row "statusObservedAt") ≡ some observed_at
  pub not_old : basis.checked_at ≤ observed_at + 5_000
  pub not_ahead : observed_at ≤ basis.checked_at + 2_000
  pub usable : basis.checked_at < cache_deadline observed_at not_after
  pub result : v ≡ accepted basis version observed_at (cache_deadline observed_at not_after)

is_stale-false : (t o : ℕ) → is_stale t o ≡ false → (t ≤ o + 5_000) × (o ≤ t + 2_000)
unfolding is_stale
is_stale-false t o h = ground arith

fresh-is_stale : (t o : ℕ) → t ≤ o + 5_000 → o ≤ t + 2_000 → is_stale t o ≡ false
unfolding is_stale
fresh-is_stale t o h k = ground arith

judge_state-accept :
    (basis : Basis) (not_after : ℕ) (s : InventoryState) (version o : ℕ)
    → (judge_state basis not_after s version o).outcome ≡ accept
    → (s ≡ active)
      × (basis.checked_at < cache_deadline o not_after)
      × (judge_state basis not_after s version o
          ≡ accepted basis version o (cache_deadline o not_after))
unfolding judge_state
judge_state-accept basis not_after active version o h =
    elim (Bool-cases (leb (cache_deadline o not_after) basis.checked_at)) [
      | inl y ↦ absurd (deny_accept (rw y at h))
      | inr n ↦ (refl, ground (arith, n), rw n refl)
    ]
  where
    deny_accept : deny ≡ accept → ⊥
    deny_accept e = cc
judge_state-accept basis not_after revoked version o h = cc
judge_state-accept basis not_after expired version o h = cc
judge_state-accept basis not_after superseded version o h = cc

judge_record-accept :
    (basis : Basis) (not_after : ℕ) (s : InventoryState) (version : ℕ) (observed : Option ℕ)
    → (judge_record basis not_after s version observed).outcome ≡ accept
    → (o : ℕ) × (observed ≡ some o)
      × (s ≡ active)
      × (is_stale basis.checked_at o ≡ false)
      × (basis.checked_at < cache_deadline o not_after)
      × (judge_record basis not_after s version observed
          ≡ accepted basis version o (cache_deadline o not_after))
unfolding judge_record
judge_record-accept basis not_after s version none h = cc
judge_record-accept basis not_after s version (some o) h =
    elim (Bool-cases (is_stale basis.checked_at o)) [
      | inl y ↦ cc
      | inr n ↦
          let (is_active, usable, result) =
            judge_state-accept basis not_after s version o (rw n at h) in
          (o, refl, is_active, n, usable, rw n result)
    ]

judge-Supports :
    (basis : Basis) (not_after : ℕ) (row : Value)
    → (judge basis not_after (loaded row)).outcome ≡ accept
    → Supports basis not_after row (judge basis not_after (loaded row))
unfolding judge
judge-Supports basis not_after row h = elim (Bool-cases (is_falsy row)) [
  | inl y ↦ cc
  | inr n ↦ elim (Option-cases (read_record basis.context basis.certificate row)) [
    | inl e ↦ cc
    | inr ((s, version), e) ↦
        let (o, observed, is_active, fresh, usable, result) =
          judge_record-accept basis not_after s version (canonical_utc (get row "statusObservedAt"))
            (rw (n, e) at h) in
        let (not_old, not_ahead) = is_stale-false basis.checked_at o fresh in
        record {
          version = version;
          observed_at = o;
          is_row = n;
          is_active = rw is_active at e;
          observed = observed;
          not_old = not_old;
          not_ahead = not_ahead;
          usable = usable;
          result = rw (n, e) result;
        }
  ]
]

Supports-judge :
    (basis : Basis) (not_after : ℕ) (row : Value) (v : Verdict)
    → Supports basis not_after row v
    → judge basis not_after (loaded row) ≡ v
unfolding judge judge_record judge_state
Supports-judge basis not_after row v h =
    rw
      (
        h.is_row,
        h.is_active,
        h.observed,
        fresh-is_stale basis.checked_at h.observed_at h.not_old h.not_ahead,
        late,
      )
      (sym h.result)
  where
    late : leb (cache_deadline h.observed_at not_after) basis.checked_at ≡ false
    late = ground (arith, h.usable)

-- What an accepted certificate of a request has: a trusted context, a certificate of its tenant and
-- subject within its period, and a record of the repository that supports it.
pub record IsAccepted (load : Query → Loaded) (clock : Moment) (argument : ContextArgument)
    (certificate : Value) (store : Store) (v : Verdict) : Type 0 where
  pub context : TenantContext
  pub presented : Presented
  pub checked_at : ℕ
  pub row : Value
  pub trusted : trusted_certificate_context argument store ≡ ok context
  pub was_presented : validate_presented_certificate context certificate ≡ ok presented
  pub checked : date_from clock "STATUS_CHECK_TIME_INVALID" ≡ ok checked_at
  pub started : presented.not_before ≤ checked_at
  pub not_ended : checked_at < presented.not_after
  pub found : load (query_of context certificate) ≡ loaded row
  pub supported : Supports (basis_of context certificate checked_at) presented.not_after row v

check_period-accept :
    (load : Query → Loaded) (basis : Basis) (p : Presented)
    → (check_period load basis p).outcome ≡ accept
    → (row : Value) × (p.not_before ≤ basis.checked_at)
      × (basis.checked_at < p.not_after)
      × (load (query_of basis.context basis.certificate) ≡ loaded row)
      × Supports basis p.not_after row (check_period load basis p)
unfolding check_period judge
check_period-accept load basis p h = elim (Bool-cases (ltb basis.checked_at p.not_before)) [
  | inl y ↦ cc
  | inr n ↦ elim (Bool-cases (leb p.not_after basis.checked_at)) [
    | inl y ↦ cc
    | inr m ↦
        let (row, found, supported) =
          queried (load (query_of basis.context basis.certificate)) (rw (n, m) at h) in
        (row, ground (arith, n), ground (arith, m), found, rw (n, m) supported)
  ]
]
  where
    queried :
        (l : Loaded)
        → (judge basis p.not_after l).outcome ≡ accept
        → (row : Value) × (l ≡ loaded row)
          × Supports basis p.not_after row (judge basis p.not_after l)
    queried timeout k = cc
    queried error k = cc
    queried (loaded row) k = (row, refl, judge-Supports basis p.not_after row k)

Supports-accept :
    (basis : Basis) (not_after : ℕ) (row : Value) (v : Verdict)
    → Supports basis not_after row v
    → v.outcome ≡ accept
Supports-accept basis not_after row v h = rw h.result refl

checked-IsAccepted :
    (load : Query → Loaded) (clock : Moment) (argument : ContextArgument) (certificate : Value)
    (store : Store) (v : Verdict) (context : TenantContext) (p : Presented) (t : ℕ)
    → trusted_certificate_context argument store ≡ ok context
    → validate_presented_certificate context certificate ≡ ok p
    → date_from clock "STATUS_CHECK_TIME_INVALID" ≡ ok t
    → check_period load (basis_of context certificate t) p ≡ v
    → v.outcome ≡ accept
    → IsAccepted load clock argument certificate store v
checked-IsAccepted load clock argument certificate store v context p t trusted presented checked e
      a =
    let (row, started, not_ended, found, supported) =
      check_period-accept load (basis_of context certificate t) p
        (ap (λ (w : Verdict). w.outcome) e ∙ a) in
    record {
      context = context;
      presented = p;
      checked_at = t;
      row = row;
      trusted = trusted;
      was_presented = presented;
      checked = checked;
      started = started;
      not_ended = not_ended;
      found = found;
      supported =
          subst (λ w. Supports (basis_of context certificate t) p.not_after row w) e supported;
    }

-- A call of validate returns a given verdict that accepts the certificate exactly when the context
-- was resolved, the certificate is well formed and of the tenant and subject of the context, the
-- instant of the check lies in its period, the repository returns a record that is that of the
-- certificate, active and with a version, observed from 5 seconds before to 2 seconds after the
-- check, the deadline of the result lies after the check, and the verdict is the acceptance with
-- that version, observation and deadline.
pub validate-accept_iff :
    (load : Query → Loaded) (clock : Moment) (argument : ContextArgument) (certificate : Value)
    (store : Store) (v : Verdict)
    → ((validate load clock argument certificate store ≡ ok v) × (v.outcome ≡ accept))
      ↔ IsAccepted load clock argument certificate store v
unfolding validate check_period
validate-accept_iff load clock argument certificate store v = (to, from)
  where
    to :
        (validate load clock argument certificate store ≡ ok v) × (v.outcome ≡ accept)
        → IsAccepted load clock argument certificate store v
    to (h, accepts) =
        let (context, trusted, h1) = >>=-eq-ok (trusted_certificate_context argument store) _ h in
        let (p, presented, h2) =
          >>=-eq-ok (validate_presented_certificate context certificate) _ h1 in
        let (t, checked, h3) = >>=-eq-ok (date_from clock "STATUS_CHECK_TIME_INVALID") _ h2 in
        let result : check_period load (basis_of context certificate t) p ≡ v = cc in
        checked-IsAccepted load clock argument certificate store v context p t trusted presented
          checked result accepts

    from :
        IsAccepted load clock argument certificate store v
        → (validate load clock argument certificate store ≡ ok v) × (v.outcome ≡ accept)
    from k =
        let early : ltb k.checked_at k.presented.not_before ≡ false = ground (arith, k.started) in
        let late : leb k.presented.not_after k.checked_at ≡ false = ground (arith, k.not_ended) in
        let judged =
          Supports-judge (basis_of k.context certificate k.checked_at) k.presented.not_after k.row v
            k.supported in
        (
          rw (k.trusted, k.was_presented, k.checked, early, late, k.found, judged) refl,
          Supports-accept (basis_of k.context certificate k.checked_at) k.presented.not_after k.row
              v k.supported,
        )
