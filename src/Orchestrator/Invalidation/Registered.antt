-- ===== src/Orchestrator/Invalidation/Registered.antt =====
-- services/orchestrator/src/security-state-invalidation.mjs: a session that was registered does not
-- outlive the invalidation of its subject.
use tenant_trust.Orchestrator.Invalidation.Once.{invalidate-Purges}
use tenant_trust.Orchestrator.Invalidation.Text.{Text}
use tenant_trust.Orchestrator.Invalidation.Scripts.{
  register_entry, get_members, raise_ttl, finish_registration,
}
use tenant_trust.Orchestrator.Invalidation.Keys.{
  Scope, SubjectKeys, security_state_redis_keys, security_session_redis_key,
}
use tenant_trust.Orchestrator.Invalidation.Store.{
  prepare_session, InvalidationRequest, register_session, Invalidated, register, invalidate,
  entry_ttl,
}
use tenant_trust.Common.{
  List, [], ◌∷◌, ℕ, none, some, refl, inl, inr, ok, err, String, ◌≡◌, Option, Result, if◌then◌else◌,
  true, >>=-eq-ok, ap, codes, ltb, Bool-cases, sym, ◌>>◌, guard, ◌∙◌, leb, ◌&&◌, subst, ◌<◌, arith,
  utf_16_length,
}
use tenant_trust.Orchestrator.Invalidation.Redis.{absent, text, members, Redis, IsRedis, Slot}
use mathlib.Core.List.{Memᴰ}

entry_ttl-pos : (n m : ℕ) → entry_ttl n ≡ ok m → 0 < m
unfolding entry_ttl
entry_ttl-pos n m h = ground arith

prepare_session-eq-ok :
    (scope : Scope) (session_id_hash value : String) (ttl_seconds : ℕ) (key index : Text)
    (seconds : ℕ)
    → prepare_session scope session_id_hash value ttl_seconds ≡ ok (key, index, seconds)
    → (keys : SubjectKeys) × (security_state_redis_keys scope ≡ ok keys)
      × (keys.session_index ≡ index)
      × (0 < seconds)
unfolding prepare_session
prepare_session-eq-ok scope session_id_hash value ttl_seconds key index seconds h =
    let (keys, made, h1) = >>=-eq-ok (security_state_redis_keys scope) _ h in
    let (k, _, h2) = >>=-eq-ok (security_session_redis_key scope.tenant_id session_id_hash) _ h1 in
    let (_, _, h3) =
      >>=-eq-ok
        (guard (leb 1 (utf_16_length (codes value)) && leb (utf_16_length (codes value)) 4_096) _) _
        h2 in
    let (t, stored, h4) = >>=-eq-ok (entry_ttl ttl_seconds) _ h3 in
    let same : t ≡ seconds = cc in
    (keys, made, cc, subst (λ n. 0 < n) same (entry_ttl-pos ttl_seconds t stored))

abbrev key_of : Result (Text × Text) → Text
key_of (ok p) = p.0
key_of (err _) = []

module _ (redis : Redis) (laws : IsRedis redis) where
  sadd-member :
      (k v : Text) (s : redis.State) (xs : List Text)
      → get_members (redis.view k s) ≡ ok xs
      → (ys : List Text) × (redis.view k (redis.sadd k v s) ≡ members ys) × Memᴰ v ys
  sadd-member k v s xs h = stored (redis.view k s) refl h
    where
      stored :
          (slot : Slot)
          → redis.view k s ≡ slot
          → get_members slot ≡ ok xs
          → (ys : List Text) × (redis.view k (redis.sadd k v s) ≡ members ys) × Memᴰ v ys
      stored absent e k' = (v ∷ [], laws.sadd_new k v s e, Memᴰ.head refl)
      stored (text t) e k' = cc
      stored (members zs) e k' =
          let (ys, same, ms) = laws.sadd_old k v s zs e in (ys, same, (ms v).1 (inl refl))

  raise_ttl-view :
      (index : Text) (ttl : ℕ) (s : redis.State) (j : Text)
      → 0 < ttl
      → redis.view j (raise_ttl redis index ttl s) ≡ redis.view j s
  raise_ttl-view index ttl s j lasts = expired (redis.ttl index s)
    where
      expired :
          (left : Option ℕ)
          → redis.view j (elim left [
            | none ↦ redis.expire index ttl s
            | some left ↦ if ltb left ttl then redis.expire index ttl s else s
          ])
            ≡ redis.view j s
      expired none = laws.expire_view index ttl s j lasts
      expired (some left) = elim (Bool-cases (ltb left ttl)) [
        | inl y ↦ rw y (laws.expire_view index ttl s j lasts)
        | inr n ↦ rw n refl
      ]

  register_entry-member :
      (key index value : Text) (seconds : ℕ) (s : redis.State) (u : Unit {0}) (s' : redis.State)
      → 0 < seconds
      → register_entry redis key index value seconds s ≡ (ok u, s')
      → (ys : List Text) × (redis.view index s' ≡ members ys) × Memᴰ key ys
  unfolding register_entry
  register_entry-member key index value seconds s u s' lasts h =
      registered (get_members (redis.view index (redis.set key value seconds s))) refl h
    where
      registered :
          (o : Result (List Text))
          → get_members (redis.view index (redis.set key value seconds s)) ≡ o
          → finish_registration redis key index seconds o (redis.set key value seconds s)
            ≡ (ok u, s')
          → (ys : List Text) × (redis.view index s' ≡ members ys) × Memᴰ key ys
      registered (err code) e k = cc
      registered (ok xs) e k =
          let (ys, same, m) = sadd-member index key (redis.set key value seconds s) xs e in
          let ends = ap (λ (p : Result (Unit {0}) × redis.State). redis.view index p.1) k in
          (
            ys,
            sym ends
                ∙ raise_ttl-view index seconds
                    (redis.sadd index key (redis.set key value seconds s)) index lasts
                ∙ same,
            m,
          )

  register_session-member :
      (scope : Scope) (session_id_hash value : String) (ttl_seconds : ℕ) (s : redis.State)
      (key index : Text) (s' : redis.State)
      → register_session redis scope session_id_hash value ttl_seconds s ≡ (ok (key, index), s')
      → (keys : SubjectKeys) × (ys : List Text) × (security_state_redis_keys scope ≡ ok keys)
        × (redis.view keys.session_index s' ≡ members ys)
        × Memᴰ key ys
  unfolding register_session register
  register_session-member scope session_id_hash value ttl_seconds s key index s' h =
      prepared (prepare_session scope session_id_hash value ttl_seconds) refl h
    where
      ran :
          (k i : Text) (seconds : ℕ) (run : Result (Unit {0}) × redis.State)
          → 0 < seconds
          → register_entry redis k i (codes value) seconds s ≡ run
          → ◌≡◌ {A = Result (Text × Text) × redis.State}
              ((run.0 >> ok (k, i)), run.1)
              (ok (key, index), s')
          → (ys : List Text) × (redis.view i s' ≡ members ys) × Memᴰ key ys
      ran k i seconds (err code, t) lasts e f = cc
      ran k i seconds (ok u, t) lasts e f =
          let (ys, stored, m) = register_entry-member k i (codes value) seconds s u t lasts e in
          (
            ys,
            sym (ap (λ (p : Result (Text × Text) × redis.State). redis.view i p.1) f) ∙ stored,
            subst (λ x. Memᴰ x ys) (ap (λ (p : Result (Text × Text) × redis.State). key_of p.0) f)
                m,
          )

      prepared :
          (o : Result (Text × Text × ℕ))
          → prepare_session scope session_id_hash value ttl_seconds ≡ o
          → register redis o value s ≡ (ok (key, index), s')
          → (keys : SubjectKeys) × (ys : List Text) × (security_state_redis_keys scope ≡ ok keys)
            × (redis.view keys.session_index s' ≡ members ys)
            × Memᴰ key ys
      prepared (err code) e f = cc
      prepared (ok (k, i, seconds)) e f =
          let (keys, made, same, lasts) =
            prepare_session-eq-ok scope session_id_hash value ttl_seconds k i seconds e in
          let (ys, stored, m) =
            ran k i seconds (register_entry redis k i (codes value) seconds s) lasts refl f in
          (keys, ys, made, subst (λ x. redis.view x s' ≡ members ys) (sym same) stored, m)

  -- On a Redis with the documented effect of its commands, however a text is read as a date, a
  -- session whose registration returned its key is gone under that key after an invalidation of its
  -- subject that was applied to the state after the registration.
  pub register_session-invalidate :
      (parse_date : Text → Option ℕ) (request : InvalidationRequest)
      (session_id_hash value : String) (ttl_seconds : ℕ) (s : redis.State) (key index : Text)
      (s1 : redis.State) (printed : Text) (r : Invalidated) (s2 : redis.State)
      → register_session redis request.scope session_id_hash value ttl_seconds s
        ≡ (ok (key, index), s1)
      → invalidate redis parse_date (some printed) request s1 ≡ (ok r, s2)
      → r.applied ≡ true
      → redis.view key s2 ≡ absent
  register_session-invalidate parse_date request session_id_hash value ttl_seconds s key index s1
        printed r s2 h k applied =
      let (keys, ys, made, stored, m) =
        register_session-member request.scope session_id_hash value ttl_seconds s key index s1 h in
      let p = invalidate-Purges redis laws parse_date printed request s1 r s2 k applied in
      let same : keys ≡ p.keys = cc in
      let indexed : get_members (redis.view p.keys.session_index s1) ≡ ok ys =
        subst (λ (x : SubjectKeys). get_members (redis.view x.session_index s1) ≡ ok ys) same
          (ap get_members stored) in
      let listed : ys ≡ p.sessions = cc in p.sessions_gone key (subst (λ x. Memᴰ key x) listed m)
