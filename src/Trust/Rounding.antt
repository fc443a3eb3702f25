-- ===== src/Trust/Rounding.antt =====
-- roundScore, as services/trust/src/trust-transition-controls.mjs and temporal-smoothing.mjs declare
-- it: half up to hundredths, with Number.EPSILON = 2^-52 added first.
use tenant_trust.Common.{ℕ, ◌+◌, ◌*◌, ◌/◌, ◌%◌, ◌^◌, ◌≤◌, ◌≡◌, ap, arith}
use tenant_trust.Common.Int.{ℤ, pos, pos_part, ◌+ℤ◌, scale, floor_div}
use tenant_trust.Js.{one, points}

-- A hundredth of a point.
abbrev pub hundredth : ℕ
hundredth = 10_000_000_000

-- Math.floor((value + 2^-52) * 100 + 0.5) / 100, over the denominator 2 * one * 2^52.
unfoldable pub round_score : ℤ → ℤ
unfolding ◌+ℤ◌ scale floor_div
round_score v =
    scale hundredth
      (floor_div (scale 200 (scale (2 ^ 52) v +ℤ pos one) +ℤ pos (one * 2 ^ 52)) (2 * one * 2 ^ 52))

-- At a score the rounding is that of a number of picopoints to the nearest hundredth.
pub round_score-pos :
    (n : ℕ) → round_score (pos n) ≡ pos (hundredth * ((n + 5_000_000_000) / hundredth))
unfolding round_score
round_score-pos n = ground arith

-- A number of picopoints, rounded to hundredths.
abbrev pub rounded : ℕ → ℕ
rounded n = hundredth * ((n + 5_000_000_000) / hundredth)

abbrev pub IsRounded : ℕ → Type 0
IsRounded n = n % hundredth ≡ 0

abbrev pub IsScore : ℕ → Type 0
IsScore n = n ≤ points 100

pub round_score-eq-rounded : (n : ℕ) → pos_part (round_score (pos n)) ≡ rounded n
round_score-eq-rounded n = ap pos_part (round_score-pos n)

pub rounded-IsRounded : (n : ℕ) → IsRounded (rounded n)
rounded-IsRounded n = omega arith

pub rounded-IsScore : (n : ℕ) → IsScore n → IsScore (rounded n)
rounded-IsScore n h = omega arith

pub rounded_id : (n : ℕ) → IsRounded n → rounded n ≡ n
rounded_id n h = omega arith

pub rounded_mono : (m n : ℕ) → m ≤ n → rounded m ≤ rounded n
rounded_mono m n h = omega arith

-- The same rounding of a number of units of 10^-24, as a product of two numbers is.
unfoldable pub round_product : ℕ → ℕ
round_product n =
    hundredth * (((n * 2 ^ 52 + 10 ^ 24) * 200 + 10 ^ 24 * 2 ^ 52) / (2 * 10 ^ 24 * 2 ^ 52))

pub round_product-IsRounded : (n : ℕ) → IsRounded (round_product n)
unfolding round_product
round_product-IsRounded n = omega arith

-- Between rounded bounds the rounding stays between them.
pub round_product-le : (n high : ℕ) → IsRounded high → n ≤ high * one → round_product n ≤ high
unfolding round_product
round_product-le n high r h = omega arith

pub le-round_product : (n low : ℕ) → IsRounded low → low * one ≤ n → low ≤ round_product n
unfolding round_product
le-round_product n low r h = omega arith

pub round_product_mono : (m n : ℕ) → m ≤ n → round_product m ≤ round_product n
unfolding round_product
round_product_mono m n h = omega arith
