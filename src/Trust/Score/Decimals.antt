-- ===== src/Trust/Score/Decimals.antt =====
-- services/trust/src/weighted-score.mjs: decimals as an integer and a scale.
use tenant_trust.Common.{
  ℕ, zero, suc, ◌+◌, ◌-◌, ◌*◌, ◌/◌, ◌%◌, ◌^◌, List, [], ◌∷◌, ltb, leb, ◌==◌, if◌then◌else◌,
}

pub record Decimal : Type 0 where
  pub integer : ℕ
  pub scale : ℕ

-- A number below 1e21 that is a multiple of 10^-12 is printed with no zero behind its last decimal,
-- with an exponent or without: its parts are its digits and the scale of the last.
unfoldable pub strip_zeros : ℕ → ℕ → Decimal
strip_zeros zero n = record { integer = n; scale = 0 }
strip_zeros (suc s) n =
    let shorter = strip_zeros s (n / 10) in
    if n % 10 == 0 then shorter else record { integer = n; scale = suc s }

-- `decimalParts(value)`.
unfoldable pub decimal_parts : ℕ → Decimal
unfolding strip_zeros
decimal_parts n = strip_zeros 12 n

-- `multiplyDecimal(left, right)`.
unfoldable pub multiply_decimal : ℕ → ℕ → Decimal
unfolding decimal_parts
multiply_decimal left right =
    let l = decimal_parts left in
    let r = decimal_parts right in
    record { integer = l.integer * r.integer; scale = l.scale + r.scale }

-- `Math.max(...scales)`, and the integers brought to that scale. The list is never empty there.
unfoldable pub maximum_scale : List Decimal → ℕ
maximum_scale [] = 0
maximum_scale (d ∷ ds) = let m = maximum_scale ds in if leb m d.scale then d.scale else m

unfoldable pub sum_integers : ℕ → List Decimal → ℕ
sum_integers scale [] = 0
sum_integers scale (d ∷ ds) = d.integer * 10 ^ (scale - d.scale) + sum_integers scale ds

-- `sumDecimals(values)`.
unfoldable pub sum_decimals : List Decimal → Decimal
unfolding maximum_scale sum_integers
sum_decimals values =
    let scale = maximum_scale values in
    record { integer = sum_integers scale values; scale = scale }

-- The integer of `roundedNumber` at a number of decimal places.
unfoldable pub rounded_integer : Decimal → ℕ → ℕ
rounded_integer value places =
    if ltb places value.scale
    then (let divisor = 10 ^ (value.scale - places) in
        value.integer / divisor + (if leb divisor (value.integer % divisor * 2) then 1 else 0))
    else value.integer * 10 ^ (places - value.scale)

-- `roundedNumber(value, decimalPlaces)`, the number that the digits are read back as; there are at
-- most 12 decimal places.
unfoldable pub rounded_number : Decimal → ℕ → ℕ
unfolding rounded_integer
rounded_number value places = rounded_integer value places * 10 ^ (12 - places)
