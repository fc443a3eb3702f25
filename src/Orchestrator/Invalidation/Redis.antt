-- ===== src/Orchestrator/Invalidation/Redis.antt =====
-- The commands of Redis that the scripts call, as an interface: what is stored under a key, and the
-- commands' documented effect on it.
use tenant_trust.Common.{ℕ, ◌≡◌, ◌≢◌, ◌<◌, ◌↔◌, ◌⊎◌, List, [], ◌∷◌, Option}
use tenant_trust.Orchestrator.Invalidation.Text.{Text}
use mathlib.Core.List.{Memᴰ}

pub data Slot : Type 0 where
  absent : Slot
  text : Text → Slot
  members : List Text → Slot

-- The commands on a state: GET, SMEMBERS and TYPE read `view`; DEL counts the keys that it removes;
-- `set` is SET with EX; `ttl` is TTL, with `none` for a key that does not expire; `wait` lets a number
-- of seconds pass.
pub record Redis : Type 1 where
  pub State : Type 0
  pub view : Text → State → Slot
  pub set : Text → Text → ℕ → State → State
  pub sadd : Text → Text → State → State
  pub del : Text → State → ℕ × State
  pub ttl : Text → State → Option ℕ
  pub expire : Text → ℕ → State → State
  pub wait : ℕ → State → State

abbrev pub deleted_count : Slot → ℕ
deleted_count absent = 0
deleted_count _ = 1

-- The documented effect of the commands.
pub record IsRedis (redis : Redis) : Type 0 where
  pub set_view :
      (k v : Text) (ttl : ℕ) (s : redis.State)
      → 0 < ttl
      → redis.view k (redis.set k v ttl s) ≡ text v
  pub set_other :
      (k v : Text) (ttl : ℕ) (s : redis.State) (j : Text)
      → j ≢ k
      → redis.view j (redis.set k v ttl s) ≡ redis.view j s
  pub set_kept :
      (k v : Text) (ttl n : ℕ) (s : redis.State)
      → n < ttl
      → redis.view k (redis.wait n (redis.set k v ttl s)) ≡ text v
  pub del_view : (k : Text) (s : redis.State) → redis.view k (redis.del k s).1 ≡ absent
  pub del_other :
      (k : Text) (s : redis.State) (j : Text)
      → j ≢ k
      → redis.view j (redis.del k s).1 ≡ redis.view j s
  pub del_count : (k : Text) (s : redis.State) → (redis.del k s).0 ≡ deleted_count (redis.view k s)
  pub sadd_other :
      (k v : Text) (s : redis.State) (j : Text)
      → j ≢ k
      → redis.view j (redis.sadd k v s) ≡ redis.view j s
  pub sadd_new :
      (k v : Text) (s : redis.State)
      → redis.view k s ≡ absent
      → redis.view k (redis.sadd k v s) ≡ members (v ∷ [])
  pub sadd_old :
      (k v : Text) (s : redis.State) (xs : List Text)
      → redis.view k s ≡ members xs
      → (ys : List Text) × (redis.view k (redis.sadd k v s) ≡ members ys)
        × ((x : Text) → Memᴰ x ys ↔ ((x ≡ v) ⊎ Memᴰ x xs))
  pub expire_view :
      (k : Text) (ttl : ℕ) (s : redis.State) (j : Text)
      → 0 < ttl
      → redis.view j (redis.expire k ttl s) ≡ redis.view j s
