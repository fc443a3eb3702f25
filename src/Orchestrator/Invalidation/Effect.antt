-- ===== src/Orchestrator/Invalidation/Effect.antt =====
-- services/orchestrator/src/security-state-invalidation.mjs: what an invalidation does to the keys.
use tenant_trust.Common.{
  List, [], ◌∷◌, all, ◌≡◌, ◌⊎◌, inl, ◌≢◌, Bool-cases, inr, ok, ◌∙◌, true, ◌++◌, refl, >>=-eq-ok,
  guard, ap, sym, guard-eq-ok, ℕ, ◌<◌,
}
use tenant_trust.Orchestrator.Invalidation.Text.{Text, text_eq, starts_with, text_eq_iff}
use tenant_trust.Orchestrator.Invalidation.Redis.{Redis, IsRedis, absent, text}
use tenant_trust.Orchestrator.Invalidation.Scripts.{
  InvalidationArguments, delete_all, delete_subject, check_scopes, get_members,
}
use mathlib.Core.List.{Memᴰ}

-- Whether a text is one of a list.
pub text_cases : (s t : Text) → (s ≡ t) ⊎ (s ≢ t)
text_cases s t = elim (Bool-cases (text_eq s t)) [
  | inl y ↦ inl ((text_eq_iff s t).0 y)
  | inr n ↦ inr (λ h. let same = (text_eq_iff s t).1 h in cc)
]

module _ (redis : Redis) (laws : IsRedis redis) where
  del_absent :
      (k : Text) (s : redis.State) (j : Text)
      → redis.view j s ≡ absent
      → redis.view j (redis.del k s).1 ≡ absent
  del_absent k s j h = elim (text_cases j k) [
    | inl e ↦ rw e (laws.del_view k s)
    | inr ne ↦ laws.del_other k s j ne ∙ h
  ]

  delete_all-absent :
      (ks : List Text) (s : redis.State) (j : Text)
      → redis.view j s ≡ absent
      → redis.view j (delete_all redis ks s).1 ≡ absent
  unfolding delete_all
  delete_all-absent [] s j h = h
  delete_all-absent (k ∷ ks) s j h = delete_all-absent ks (redis.del k s).1 j (del_absent k s j h)

  pub delete_all-mem :
      (ks : List Text) (s : redis.State) (j : Text)
      → Memᴰ j ks
      → redis.view j (delete_all redis ks s).1 ≡ absent
  unfolding delete_all
  delete_all-mem [] s j m = elim m [ ]
  delete_all-mem (k ∷ ks) s j (Memᴰ.head e) =
      delete_all-absent ks (redis.del k s).1 j (rw e (laws.del_view k s))
  delete_all-mem (k ∷ ks) s j (Memᴰ.tail m) = delete_all-mem ks (redis.del k s).1 j m

  pub delete_all-other :
      (ks : List Text) (s : redis.State) (j : Text)
      → ¬ Memᴰ j ks
      → redis.view j (delete_all redis ks s).1 ≡ redis.view j s
  unfolding delete_all
  delete_all-other [] s j m = refl
  delete_all-other (k ∷ ks) s j m =
      delete_all-other ks (redis.del k s).1 j (λ h. m (Memᴰ.tail h))
      ∙ laws.del_other k s j (λ e. m (Memᴰ.head e))

  -- The keys that an invalidation with given arguments touches.
  pub record Invalidates (a : InvalidationArguments) (s : redis.State) (sessions caches : List Text)
      (s' : redis.State) : Type 0 where
    pub indexed_sessions : get_members (redis.view a.session_index s) ≡ ok sessions
    pub indexed_caches : get_members (redis.view a.cache_index s) ≡ ok caches
    pub session_scope : all (starts_with a.session_prefix) sessions ≡ true
    pub cache_scope : all (starts_with a.cache_prefix) caches ≡ true
    pub marked : redis.view a.marker s' ≡ text (a.action_id ++ b'|' ∷ a.invalidated_at)
    pub stays_marked :
        (n : ℕ)
        → n < a.marker_ttl
        → redis.view a.marker (redis.wait n s') ≡ text (a.action_id ++ b'|' ∷ a.invalidated_at)
    pub sessions_gone : (j : Text) → Memᴰ j sessions → j ≢ a.marker → redis.view j s' ≡ absent
    pub caches_gone : (j : Text) → Memᴰ j caches → j ≢ a.marker → redis.view j s' ≡ absent
    pub session_index_gone : a.session_index ≢ a.marker → redis.view a.session_index s' ≡ absent
    pub cache_index_gone : a.cache_index ≢ a.marker → redis.view a.cache_index s' ≡ absent
    pub others_kept :
        (j : Text)
        → ¬ Memᴰ j sessions
        → ¬ Memᴰ j caches
        → j ≢ a.session_index
        → j ≢ a.cache_index
        → j ≢ a.marker
        → redis.view j s' ≡ redis.view j s

  pub check_scopes-eq-ok :
      (a : InvalidationArguments) (s : redis.State) (sessions caches : List Text)
      → check_scopes redis a s ≡ ok (sessions, caches)
      → (get_members (redis.view a.session_index s) ≡ ok sessions)
        × (get_members (redis.view a.cache_index s) ≡ ok caches)
        × (all (starts_with a.session_prefix) sessions ≡ true)
        × (all (starts_with a.cache_prefix) caches ≡ true)
  unfolding check_scopes
  check_scopes-eq-ok a s sessions caches h =
      let (xs, first, h1) = >>=-eq-ok (get_members (redis.view a.session_index s)) _ h in
      let (ys, second, h2) = >>=-eq-ok (get_members (redis.view a.cache_index s)) _ h1 in
      let (_, third, h3) = >>=-eq-ok (guard (all (starts_with a.session_prefix) xs) _) _ h2 in
      let (_, fourth, h4) = >>=-eq-ok (guard (all (starts_with a.cache_prefix) ys) _) _ h3 in
      let same : xs ≡ sessions = cc in
      let same' : ys ≡ caches = cc in
      (
        first ∙ ap ok same,
        second ∙ ap ok same',
        ap (all (starts_with a.session_prefix)) (sym same) ∙ guard-eq-ok _ _ third,
        ap (all (starts_with a.cache_prefix)) (sym same') ∙ guard-eq-ok _ _ fourth,
      )

  pub delete_subject-Invalidates :
      (a : InvalidationArguments) (s : redis.State) (sessions caches : List Text)
      → 0 < a.marker_ttl
      → check_scopes redis a s ≡ ok (sessions, caches)
      → Invalidates a s sessions caches (delete_subject redis a sessions caches s).1
  unfolding delete_subject
  delete_subject-Invalidates a s sessions caches lasts h =
      let (i, j, k, l) = check_scopes-eq-ok a s sessions caches h in
      let s1 = (delete_all redis sessions s).1 in
      let s2 = (delete_all redis caches s1).1 in
      let s3 = (redis.del a.session_index s2).1 in
      let s4 = (redis.del a.cache_index s3).1 in
      let after : (j : Text)
          → j ≢ a.marker
          → redis.view j (delete_subject redis a sessions caches s).1 ≡ redis.view j s4 =
        (λ j ne. laws.set_other a.marker _ a.marker_ttl s4 j ne) in
      record {
        indexed_sessions = i;
        indexed_caches = j;
        session_scope = k;
        cache_scope = l;
        marked = laws.set_view a.marker _ a.marker_ttl s4 lasts;
        stays_marked = λ n below. laws.set_kept a.marker _ a.marker_ttl n s4 below;
        sessions_gone = λ j m ne.
            after j ne
            ∙ del_absent a.cache_index s3 j (
                del_absent a.session_index s2 j
                  (delete_all-absent caches s1 j (delete_all-mem sessions s j m)));
        caches_gone = λ j m ne.
            after j ne
            ∙ del_absent a.cache_index s3 j
                (del_absent a.session_index s2 j (delete_all-mem caches s1 j m));
        session_index_gone = λ ne.
            after a.session_index ne
            ∙ del_absent a.cache_index s3 a.session_index (laws.del_view a.session_index s2);
        cache_index_gone = λ ne. after a.cache_index ne ∙ laws.del_view a.cache_index s3;
        others_kept = λ j m n si ci ne.
            after j ne
            ∙ laws.del_other a.cache_index s3 j ci
            ∙ laws.del_other a.session_index s2 j si
            ∙ delete_all-other caches s1 j n
            ∙ delete_all-other sessions s j m;
      }
