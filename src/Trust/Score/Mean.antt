-- ===== src/Trust/Score/Mean.antt =====
-- The weighted score against the exact mean.
use tenant_trust.Trust.Model.Accepted.{
  IsNormalized, IsWeighting, define_normalized_components-eq-ok,
  define_trust_model_configuration-eq-ok,
}
use tenant_trust.Trust.Model.{
  Configuration, define_normalized_components, define_trust_model_configuration, sum,
}
use tenant_trust.Common.{
  ℕ, ◌+◌, ◌-◌, ◌*◌, ◌/◌, ◌^◌, ◌≤◌, ◌≡◌, refl, sym, ap, ◌∙◌, List, [], ◌∷◌, arith, ltb, Bool-cases,
  All, inl, inr, ltb→lt, ok,
}
use native.Mathlib.Nat.{mul-le-mul_right, one-le-pow}
use tenant_trust.Js.{one, points, Value}
use tenant_trust.Trust.Rounding.{hundredth}
use tenant_trust.Trust.Score.{
  exact_contributions, weighted_score, WeightedScore, calculate_weighted_trust_score, contributions,
}
use tenant_trust.Trust.Score.Decimals.{
  Decimal, decimal_parts, multiply_decimal, maximum_scale, sum_integers, sum_decimals,
  rounded_number,
}
use tenant_trust.Trust.Score.Exact.{pow_add, value_of, strip_zeros-value, half_up}

decimal_parts-value :
    (n : ℕ)
    → ((decimal_parts n).integer * 10 ^ (12 - (decimal_parts n).scale) ≡ n)
      × ((decimal_parts n).scale ≤ 12)
unfolding decimal_parts
decimal_parts-value n = strip_zeros-value 12 n

product_value :
    (i a j b c w : ℕ)
    → i * 10 ^ (12 - a) ≡ c
    → j * 10 ^ (12 - b) ≡ w
    → a ≤ 12
    → b ≤ 12
    → i * j * 10 ^ (24 - (a + b)) ≡ c * w
product_value i a j b c w e f h k =
    let exponent : 24 - (a + b) ≡ (12 - a) + (12 - b) = omega arith in
    rw (exponent, pow_add (12 - a) (12 - b), ← e, ← f) (omega arith)

-- A product of two numbers is exact.
multiply_decimal-value :
    (c w : ℕ) → (value_of (multiply_decimal c w) ≡ c * w) × ((multiply_decimal c w).scale ≤ 24)
unfolding multiply_decimal
multiply_decimal-value c w =
    let (e, h) = decimal_parts-value c in
    let (f, k) = decimal_parts-value w in (product_value _ _ _ _ c w e f h k, omega arith)

abbrev sum_values : List Decimal → ℕ
sum_values [] = 0
sum_values (d ∷ ds) = value_of d + sum_values ds

term_value : (i s m : ℕ) → s ≤ m → m ≤ 24 → i * 10 ^ (m - s) * 10 ^ (24 - m) ≡ i * 10 ^ (24 - s)
term_value i s m h k =
    let exponent : 24 - s ≡ (m - s) + (24 - m) = omega arith in
    rw (exponent, pow_add (m - s) (24 - m)) (omega arith)

sum_integers-value :
    (m : ℕ) (ds : List Decimal)
    → All (λ (d : Decimal). d.scale ≤ m) ds
    → m ≤ 24
    → sum_integers m ds * 10 ^ (24 - m) ≡ sum_values ds
unfolding sum_integers
sum_integers-value m [] h k = omega arith
sum_integers-value m (d ∷ ds) h k =
    omega (arith, term_value d.integer d.scale m h.0 k, sum_integers-value m ds h.1 k)

All-weaken :
    (m n : ℕ) (ds : List Decimal)
    → m ≤ n
    → All (λ (d : Decimal). d.scale ≤ m) ds
    → All (λ (d : Decimal). d.scale ≤ n) ds
All-weaken m n [] h a = tt
All-weaken m n (d ∷ ds) h a = (omega arith, All-weaken m n ds h a.1)

maximum_scale-All : (ds : List Decimal) → All (λ (d : Decimal). d.scale ≤ maximum_scale ds) ds
unfolding maximum_scale
maximum_scale-All [] = tt
maximum_scale-All (d ∷ ds) =
    (ground arith, All-weaken (maximum_scale ds) _ ds (ground arith) (maximum_scale-All ds))

maximum_scale-le :
    (ds : List Decimal) → All (λ (d : Decimal). d.scale ≤ 24) ds → maximum_scale ds ≤ 24
unfolding maximum_scale
maximum_scale-le [] h = omega arith
maximum_scale-le (d ∷ ds) h = ground (arith, maximum_scale-le ds h.1)

sum_decimals-value :
    (ds : List Decimal)
    → All (λ (d : Decimal). d.scale ≤ 24) ds
    → (value_of (sum_decimals ds) ≡ sum_values ds) × ((sum_decimals ds).scale ≤ 24)
unfolding sum_decimals
sum_decimals-value ds h =
    let below = maximum_scale-le ds h in
    (sum_integers-value (maximum_scale ds) ds (maximum_scale-All ds) below, below)

-- The dot product, in units of 10^-24.
abbrev pub dot : List ℕ → List ℕ → ℕ
dot (c ∷ cs) (w ∷ ws) = c * w + dot cs ws
dot _ _ = 0

exact_contributions-value :
    (cs ws : List ℕ)
    → (sum_values (exact_contributions cs ws) ≡ dot cs ws)
      × All (λ (d : Decimal). d.scale ≤ 24) (exact_contributions cs ws)
unfolding exact_contributions
exact_contributions-value (c ∷ cs) (w ∷ ws) =
    let (same, below) = multiply_decimal-value c w in
    let (others, rest) = exact_contributions-value cs ws in (omega arith, (below, rest))
exact_contributions-value [] ws = (refl, tt)
exact_contributions-value (c ∷ cs) [] = (refl, tt)

-- A number of units of 10^-24, rounded half up to hundredths.
abbrev pub nearest_hundredth : ℕ → ℕ
nearest_hundredth n = hundredth * ((2 * n + 10 ^ 22) / (2 * 10 ^ 22))

whole_hundredths :
    (i p : ℕ) → i * p * 10 ^ 10 ≡ hundredth * ((2 * (i * (p * 10 ^ 22)) + 10 ^ 22) / (2 * 10 ^ 22))
whole_hundredths i p = omega arith

rounded_number-nearest :
    (d : Decimal) → d.scale ≤ 24 → rounded_number d 2 ≡ nearest_hundredth (value_of d)
unfolding rounded_number
rounded_number-nearest d h = elim (Bool-cases (ltb 2 d.scale)) [
  | inl long ↦
      let exponent : (d.scale - 2) + (24 - d.scale) ≡ 22 = omega (arith, ltb→lt 2 d.scale long) in
      let divides : 10 ^ (d.scale - 2) * 10 ^ (24 - d.scale) ≡ 10 ^ 22 =
        sym (pow_add (d.scale - 2) (24 - d.scale)) ∙ ap (λ (t : ℕ). 10 ^ t) exponent in
      rw long (
        rw
          (half_up d.integer (10 ^ (d.scale - 2)) (10 ^ (24 - d.scale))
            (one-le-pow (d.scale - 2) 10 (omega arith)) divides)
          (omega arith))
  | inr short ↦
      let exponent : 24 - d.scale ≡ (2 - d.scale) + 22 = ground arith in
      rw short
        (rw (exponent, pow_add (2 - d.scale) 22) (whole_hundredths d.integer (10 ^ (2 - d.scale))))
]

-- The decimal arithmetic of the weighted score gives the exact sum of the products of components
-- and weights, rounded half up to hundredths.
pub weighted_score-exact :
    (components weights : List ℕ)
    → weighted_score components weights ≡ nearest_hundredth (dot components weights)
unfolding weighted_score
weighted_score-exact cs ws =
    let (same, below) = exact_contributions-value cs ws in
    let (total, scaled) = sum_decimals-value (exact_contributions cs ws) below in
    rounded_number-nearest (sum_decimals (exact_contributions cs ws)) scaled
    ∙ ap nearest_hundredth (total ∙ same)

dot-le : (m : ℕ) (cs ws : List ℕ) → All (λ (c : ℕ). c ≤ m) cs → dot cs ws ≤ m * sum ws
dot-le m (c ∷ cs) (w ∷ ws) h = omega (arith, mul-le-mul_right w h.0, dot-le m cs ws h.1)
dot-le m [] ws h = omega arith
dot-le m (c ∷ cs) [] h = omega arith

-- Of accepted components and weights the score is at most 100: the range check behind it never fails.
pub weighted_score-le :
    (components weights : List ℕ)
    → IsNormalized components
    → IsWeighting weights
    → weighted_score components weights ≤ points 100
weighted_score-le cs ws c w =
    rw (weighted_score-exact cs ws)
      (below (dot cs ws) (sum ws) (dot-le (points 100) cs ws c.in_range) w.at_most_one)
  where
    below :
        (n total : ℕ) → n ≤ points 100 * total → total ≤ one + 1 → nearest_hundredth n ≤ points 100
    below n total h k = omega arith

-- If the components and the configuration are accepted, calculateWeightedTrustScore returns, with
-- the exact mean of the accepted values rounded half up to hundredths, which is at most 100, and
-- with the accepted components and weights.
pub calculate_weighted_trust_score_lem :
    (values configuration : Value) {components : List ℕ} {model : Configuration}
    → define_normalized_components values ≡ ok components
    → define_trust_model_configuration configuration ≡ ok model
    → (r : WeightedScore) × (calculate_weighted_trust_score values configuration ≡ ok r)
      × (r.score ≡ nearest_hundredth (dot components model.weights))
      × (r.score ≤ points 100)
      × (r.components ≡ components)
      × (r.weights ≡ model.weights)
unfolding calculate_weighted_trust_score
calculate_weighted_trust_score_lem values configuration {components} {model} c m =
    let below =
      weighted_score-le components model.weights (define_normalized_components-eq-ok values c)
        (define_trust_model_configuration-eq-ok configuration m) in
    (
      record {
        model_version = model.model_version;
        score = weighted_score components model.weights;
        components = components;
        weights = model.weights;
        contributions = contributions components model.weights;
      },
      rw (c, m) (ground arith),
      weighted_score-exact components model.weights,
      below,
      refl,
      refl,
    )
