-- ===== src/Trust/Score/Exact.antt =====
-- The decimals of services/trust/src/weighted-score.mjs against numbers over one denominator.
use tenant_trust.Common.{
  ℕ, zero, suc, ◌+◌, ◌-◌, ◌*◌, ◌/◌, ◌%◌, ◌^◌, ◌≤◌, ◌<◌, ◌≡◌, ap, true, arith, leb, ◌==◌,
  if◌then◌else◌, Bool-cases, inl, inr, leb→le,
}
use native.Mathlib.Nat.{
  pow-succ', mod-lt, div-add-mod, zero-add, suc-add, sub_self, mul-le-mul_right,
}
use tenant_trust.Trust.Score.Decimals.{Decimal, strip_zeros}

pub pow_add : (a b : ℕ) → 10 ^ (a + b) ≡ 10 ^ a * 10 ^ b
pow_add zero b = rw (zero-add b) (omega arith)
pow_add (suc a) b =
    rw (suc-add a b, pow-succ' 10 (a + b), pow-succ' 10 a, pow_add a b) (omega arith)

-- The value of a decimal, in units of 10^-24.
abbrev pub value_of : Decimal → ℕ
value_of d = d.integer * 10 ^ (24 - d.scale)

shifted : (n i p : ℕ) → i * p ≡ n / 10 → (n % 10 == 0) ≡ true → i * (10 * p) ≡ n
shifted n i p h e = let last : n % 10 ≡ 0 = ground arith in omega arith

kept : (n s : ℕ) → n * 10 ^ (suc s - suc s) ≡ n
kept n s = rw (sub_self (suc s)) (omega arith)

pub strip_zeros-value :
    (s n : ℕ)
    → ((strip_zeros s n).integer * 10 ^ (s - (strip_zeros s n).scale) ≡ n)
      × ((strip_zeros s n).scale ≤ s)
unfolding strip_zeros
strip_zeros-value zero n = (omega arith, omega arith)
strip_zeros-value (suc s) n = elim (Bool-cases (n % 10 == 0)) [
  | inl round ↦
      let shorter = strip_zeros s (n / 10) in
      let (same, below) = strip_zeros-value s (n / 10) in
      let longer : suc s - shorter.scale ≡ suc (s - shorter.scale) = omega arith in
      rw round (
        rw longer (rw (pow-succ' 10 (s - shorter.scale)) (shifted n shorter.integer _ same round)),
        omega arith,
      )
  | inr last ↦ rw last (kept n s, omega arith)
]

rounds_up :
    (n q x : ℕ)
    → n ≡ q * 10 ^ 22 + x
    → x < 10 ^ 22
    → 10 ^ 22 ≤ 2 * x
    → q + 1 ≡ (2 * n + 10 ^ 22) / (2 * 10 ^ 22)
rounds_up n q x e h k = omega arith

rounds_down :
    (n q x : ℕ) → n ≡ q * 10 ^ 22 + x → 2 * x < 10 ^ 22 → q + 0 ≡ (2 * n + 10 ^ 22) / (2 * 10 ^ 22)
rounds_down n q x e h = omega arith

remainder_small : (r d k : ℕ) → r < d → d * k ≡ 10 ^ 22 → r * k < 10 ^ 22
remainder_small r d zero h e = omega arith
remainder_small r d (suc k) h e = omega (arith, mul-le-mul_right (suc k) h)

remainder_up : (r d k : ℕ) → d ≤ r * 2 → d * k ≡ 10 ^ 22 → 10 ^ 22 ≤ 2 * (r * k)
remainder_up r d k h e = omega (arith, mul-le-mul_right k h)

remainder_down : (r d k : ℕ) → r * 2 < d → d * k ≡ 10 ^ 22 → 2 * (r * k) < 10 ^ 22
remainder_down r d zero h e = omega arith
remainder_down r d (suc k) h e = omega (arith, mul-le-mul_right (suc k) h)

-- A quotient by d, rounded half up, is the rounded quotient of the number over 10^22.
half_up_parts :
    (q r d k i : ℕ)
    → r < d
    → d * k ≡ 10 ^ 22
    → d * q + r ≡ i
    → q + (if leb d (r * 2) then 1 else 0) ≡ (2 * (i * k) + 10 ^ 22) / (2 * 10 ^ 22)
half_up_parts q r d k i h e split =
    let whole : i * k ≡ q * 10 ^ 22 + r * k =
      omega (arith, ap (λ (t : ℕ). t * k) split, ap (λ (t : ℕ). t * q) e) in
    let small = remainder_small r d k h e in
    elim (Bool-cases (leb d (r * 2))) [
      | inl up ↦
          rw up (rounds_up (i * k) q (r * k) whole small (remainder_up r d k (leb→le _ _ up) e))
      | inr down ↦
          rw down (rounds_down (i * k) q (r * k) whole (remainder_down r d k (ground arith) e))
    ]

pub half_up :
    (i d k : ℕ)
    → 0 < d
    → d * k ≡ 10 ^ 22
    → i / d + (if leb d (i % d * 2) then 1 else 0) ≡ (2 * (i * k) + 10 ^ 22) / (2 * 10 ^ 22)
half_up i d k h e = half_up_parts (i / d) (i % d) d k i (mod-lt i h) e (div-add-mod i d)
