-- ===== src/Orchestrator/Invalidation/Memory.antt =====
-- A Redis in memory: the slot of each key with its time of expiry, at a time in seconds. It shows that
-- the documented effect of the commands can hold.
use tenant_trust.Orchestrator.Invalidation.Effect.{text_cases}
use tenant_trust.Common.{
  ℕ, ◌+◌, ◌-◌, ◌<◌, ◌≡◌, refl, ◌≢◌, List, [], ◌∷◌, Option, none, some, true, ltb, if◌then◌else◌,
  inl, inr, Bool-cases, ap, arith, ◌↔◌, ◌∙◌, sym, ◌⊎◌, subst,
}
use tenant_trust.Orchestrator.Invalidation.Text.{Text, text_eq, text_eq_iff}
use tenant_trust.Orchestrator.Invalidation.Redis.{
  Slot, absent, text, members, Redis, IsRedis, deleted_count,
}
use mathlib.Core.List.{Memᴰ}

pub record Entry : Type 0 where
  pub slot : Slot
  pub expires : Option ℕ

pub record Memory : Type 0 where
  pub now : ℕ
  pub entry : Text → Entry

abbrev live : ℕ → Entry → Slot
live now e = elim e.expires [ none ↦ e.slot | some t ↦ if ltb now t then e.slot else absent ]

unfoldable pub memory_view : Text → Memory → Slot
memory_view k m = live m.now (m.entry k)

unfoldable pub store : Text → Entry → Memory → Memory
store k e m = record { now = m.now; entry = λ j. if text_eq j k then e else m.entry j }

abbrev nothing : Entry
nothing = record { slot = absent; expires = none }

abbrev added : Text → Slot → Slot
added v absent = members (v ∷ [])
added v (text t) = text t
added v (members xs) = members (v ∷ xs)

abbrev kept_expiry : Option ℕ → Slot → Option ℕ
kept_expiry end absent = none
kept_expiry end _ = end

-- The time of expiry of a key that is live.
abbrev live_expiry : ℕ → Entry → Option ℕ
live_expiry now e = kept_expiry e.expires (live now e)

unfoldable pub memory_sadd : Text → Text → Memory → Memory
unfolding store
memory_sadd k v m =
    store k
      (record { slot = added v (live m.now (m.entry k)); expires = live_expiry m.now (m.entry k) })
      m

abbrev expired : Text → ℕ → Slot → Memory → Memory
expired k end absent m = m
expired k end (text t) m = store k (record { slot = text t; expires = some end }) m
expired k end (members xs) m = store k (record { slot = members xs; expires = some end }) m

abbrev pub memory : Redis
memory = record {
  State = Memory;
  view = memory_view;
  set = λ k v ttl m. store k (record { slot = text v; expires = some (m.now + ttl) }) m;
  sadd = memory_sadd;
  del = λ k m. (deleted_count (memory_view k m), store k nothing m);
  ttl = λ k m. elim (live_expiry m.now (m.entry k)) [ none ↦ none | some t ↦ some (t - m.now) ];
  expire = λ k ttl m. expired k (m.now + ttl) (memory_view k m) m;
  wait = λ n m. record { now = m.now + n; entry = m.entry };
}

store-same : (k : Text) (e : Entry) (m : Memory) → (store k e m).entry k ≡ e
unfolding store
store-same k e m = rw ((text_eq_iff k k).1 refl) refl

store-other :
    (k : Text) (e : Entry) (m : Memory) (j : Text) → j ≢ k → (store k e m).entry j ≡ m.entry j
unfolding store
store-other k e m j ne = elim (Bool-cases (text_eq j k)) [
  | inl y ↦ absurd (ne ((text_eq_iff j k).0 y))
  | inr n ↦ rw n refl
]

view-store : (k : Text) (e : Entry) (m : Memory) → memory_view k (store k e m) ≡ live m.now e
unfolding memory_view store
view-store k e m = ap (live m.now) (store-same k e m)

view-other :
    (k : Text) (e : Entry) (m : Memory) (j : Text)
    → j ≢ k
    → memory_view j (store k e m) ≡ memory_view j m
unfolding memory_view store
view-other k e m j ne = ap (live m.now) (store-other k e m j ne)

expires_later :
    (now ttl : ℕ) (slot : Slot)
    → 0 < ttl
    → live now (record { slot = slot; expires = some (now + ttl) }) ≡ slot
expires_later now ttl slot h =
    let later : ltb now (now + ttl) ≡ true = ground arith in rw later refl

memory-set_kept :
    (k v : Text) (ttl n : ℕ) (s : Memory)
    → n < ttl
    → memory.view k (memory.wait n (memory.set k v ttl s)) ≡ text v
unfolding memory_view store
memory-set_kept k v ttl n s below =
    let later : ltb (s.now + n) (s.now + ttl) ≡ true = ground arith in
    ap (live (s.now + n)) (store-same k (record { slot = text v; expires = some (s.now + ttl) }) s)
    ∙ rw later refl

abbrev live_slot : ℕ → Option ℕ → Slot → Slot
live_slot now end slot = live now (record { slot = slot; expires = end })

live-kept :
    (now : ℕ) (v : Text) (end : Option ℕ) (u slot : Slot)
    → live_slot now end slot ≡ u
    → live_slot now (kept_expiry end u) (added v u) ≡ added v u
live-kept now v end absent slot e = refl
live-kept now v none (text t) slot e = refl
live-kept now v none (members xs) slot e = refl
live-kept now v (some t) (text w) slot e = elim (Bool-cases (ltb now t)) [
  | inl y ↦ rw y refl
  | inr n ↦ absurd (let clash : absent ≡ text w = rw n at e in cc)
]
live-kept now v (some t) (members xs) slot e = elim (Bool-cases (ltb now t)) [
  | inl y ↦ rw y refl
  | inr n ↦ absurd (let clash : absent ≡ members xs = rw n at e in cc)
]

live-added :
    (now : ℕ) (v : Text) (e : Entry)
    → live now (record { slot = added v (live now e); expires = live_expiry now e })
      ≡ added v (live now e)
live-added now v e = live-kept now v e.expires (live now e) e.slot refl

memory-sadd_other :
    (k v : Text) (s : Memory) (j : Text)
    → j ≢ k
    → memory_view j (memory_sadd k v s) ≡ memory_view j s
unfolding memory_sadd
memory-sadd_other k v s j ne =
    view-other k
      (record { slot = added v (live s.now (s.entry k)); expires = live_expiry s.now (s.entry k) })
      s j ne

memory-sadd :
    (k v : Text) (s : Memory) → memory_view k (memory_sadd k v s) ≡ added v (memory_view k s)
unfolding memory_sadd memory_view
memory-sadd k v s =
    view-store k
      (record { slot = added v (live s.now (s.entry k)); expires = live_expiry s.now (s.entry k) })
      s
    ∙ live-added s.now v (s.entry k)

mem-cons : (v x : Text) (xs : List Text) → Memᴰ x (v ∷ xs) ↔ ((x ≡ v) ⊎ Memᴰ x xs)
mem-cons v x xs = (to, from)
  where
    to : Memᴰ x (v ∷ xs) → (x ≡ v) ⊎ Memᴰ x xs
    to (Memᴰ.head e) = inl e
    to (Memᴰ.tail m) = inr m

    from : (x ≡ v) ⊎ Memᴰ x xs → Memᴰ x (v ∷ xs)
    from (inl e) = Memᴰ.head e
    from (inr m) = Memᴰ.tail m

memory-expire :
    (k : Text) (ttl : ℕ) (s : Memory) (j : Text)
    → 0 < ttl
    → memory.view j (memory.expire k ttl s) ≡ memory.view j s
memory-expire k ttl s j lasts = elim (text_cases j k) [
  | inl e ↦
      subst (λ x. memory.view x (memory.expire k ttl s) ≡ memory.view x s) (sym e)
        (same (memory_view k s) refl)
  | inr ne ↦ other ne (memory_view k s)
]
  where
    other : j ≢ k → (slot : Slot) → memory_view j (expired k (s.now + ttl) slot s) ≡ memory_view j s
    other ne absent = refl
    other ne (text t) = view-other k _ s j ne
    other ne (members xs) = view-other k _ s j ne

    same :
        (slot : Slot)
        → memory_view k s ≡ slot
        → memory_view k (expired k (s.now + ttl) slot s) ≡ memory_view k s
    same absent e = refl
    same (text t) e =
        view-store k (record { slot = text t; expires = some (s.now + ttl) }) s
        ∙ expires_later s.now ttl (text t) lasts
        ∙ sym e
    same (members xs) e =
        view-store k (record { slot = members xs; expires = some (s.now + ttl) }) s
        ∙ expires_later s.now ttl (members xs) lasts
        ∙ sym e

pub memory-IsRedis : IsRedis memory
memory-IsRedis = record {
  set_view = λ k v ttl s lasts.
      view-store k (record { slot = text v; expires = some (s.now + ttl) }) s
      ∙ expires_later s.now ttl (text v) lasts;
  set_other = λ k v ttl s j ne.
      view-other k (record { slot = text v; expires = some (s.now + ttl) }) s j ne;
  set_kept = λ k v ttl n s below. memory-set_kept k v ttl n s below;
  del_view = λ k s. view-store k nothing s;
  del_other = λ k s j ne. view-other k nothing s j ne;
  del_count = λ k s. refl;
  sadd_other = λ k v s j ne. memory-sadd_other k v s j ne;
  sadd_new = λ k v s e. memory-sadd k v s ∙ ap (added v) e;
  sadd_old = λ k v s xs e. (v ∷ xs, memory-sadd k v s ∙ ap (added v) e, λ x. mem-cons v x xs);
  expire_view = λ k ttl s j lasts. memory-expire k ttl s j lasts;
}
