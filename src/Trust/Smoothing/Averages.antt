-- ===== src/Trust/Smoothing/Averages.antt =====
-- What a smoothing step guarantees: the range of its score, the state that it stores, and the
-- observations that it refuses.
use tenant_trust.Common.{
  ℕ, ◌+◌, ◌-◌, ◌*◌, ◌≤◌, ◌<◌, ◌≡◌, refl, ap, ◌⊎◌, ◌↔◌, inl, inr, Option, none, some, true, arith,
  ltb, ok, err, String, Option-cases, Bool-cases,
}
use native.Mathlib.Nat.{mul-le-mul_left}
use tenant_trust.Js.{one, points}
use tenant_trust.Trust.Rounding.{IsRounded, IsScore, round_product-le, le-round_product}
use tenant_trust.Trust.Smoothing.Decode.{
  TemporalConfiguration, TemporalState, Observation, is_temporal_state,
}
use tenant_trust.Trust.Smoothing.Advance.{
  Exponential, Smoothed, average, advance, advance_fresh, advance_without, decayed_score,
  prior_score, last_fresh, baseline_score, stale_after, advance_by,
}

weighted-le : (a b o p high : ℕ) → a + b ≡ one → o ≤ high → p ≤ high → a * o + b * p ≤ high * one
weighted-le a b o p high e h k =
    omega (arith, mul-le-mul_left a h, mul-le-mul_left b k, ap (λ (t : ℕ). t * high) e)

le-weighted : (a b o p low : ℕ) → a + b ≡ one → low ≤ o → low ≤ p → low * one ≤ a * o + b * p
le-weighted a b o p low e h k =
    omega (arith, mul-le-mul_left a h, mul-le-mul_left b k, ap (λ (t : ℕ). t * low) e)

-- An average lies between rounded bounds of its two scores.
pub average_bounds :
    (a o p low high : ℕ)
    → a ≤ one
    → IsRounded low
    → IsRounded high
    → (low ≤ o) × (low ≤ p)
    → (o ≤ high) × (p ≤ high)
    → (low ≤ average a o p) × (average a o p ≤ high)
unfolding average
average_bounds a o p low high h rl rh below above =
    let parts : a + (one - a) ≡ one = omega arith in
    (
      le-round_product (a * o + (one - a) * p) low rl
          (le-weighted a (one - a) o p low parts below.0 below.1),
      round_product-le (a * o + (one - a) * p) high rh
          (weighted-le a (one - a) o p high parts above.0 above.1),
    )

-- A blend that keeps a part of what lies above the baseline.
pub blend_bounds :
    (b a r : ℕ)
    → b ≤ a
    → r ≤ one
    → (b * one ≤ b * one + (a - b) * r) × (b * one + (a - b) * r ≤ a * one)
blend_bounds b a r h k = (omega arith, omega (arith, mul-le-mul_left (a - b) k))

pub baseline-le-anchor :
    (c : TemporalConfiguration) (s : TemporalState) → baseline_score c s ≤ s.anchor_score
baseline-le-anchor c s = ground arith

-- A configuration as it is accepted.
pub record IsConfigured (c : TemporalConfiguration) : Type 0 where
  pub initial_in_range : IsScore c.initial_score
  pub alpha_positive : 0 < c.smoothing_alpha
  pub alpha_at_most_one : c.smoothing_alpha ≤ one
  pub stale_positive : 0 < c.stale_after_seconds

-- A stored state that the step at an instant accepts.
pub record IsStored (c : TemporalConfiguration) (now : ℕ) (s : TemporalState) : Type 0 where
  pub score_in_range : IsScore s.score
  pub anchor_in_range : IsScore s.anchor_score
  pub consistent : is_temporal_state c now s ≡ true

abbrev pub AllStored : TemporalConfiguration → ℕ → Option TemporalState → Type 0
AllStored c now none = Unit
AllStored c now (some s) = IsStored c now s

-- An observation as it is accepted.
abbrev pub IsObserved : ℕ → Option Observation → Type 0
IsObserved now none = Unit
IsObserved now (some o) = IsScore o.score × (o.observed_at ≤ now)

-- A fresh observation is averaged in; a stale one is treated as none.
pub advance-cases :
    (e : Exponential) (c : TemporalConfiguration) (previous : Option TemporalState)
    (o : Observation) (now : ℕ)
    → (now ≤ o.observed_at + stale_after c)
        × (advance e c previous (some o) now ≡ advance_fresh c previous o now)
      ⊎ (o.observed_at + stale_after c < now)
        × (advance e c previous (some o) now ≡ ok (advance_without e c previous (some o) now))
unfolding advance
advance-cases e c previous o now = elim (Bool-cases (ltb (stale_after c) (now - o.observed_at))) [
  | inl old ↦ inr (ground arith, rw (old, advance_by) refl)
  | inr young ↦ inl (ground arith, rw (young, advance_by) refl)
]

module _ (e : Exponential) (c : TemporalConfiguration) (configured : IsConfigured c) where
  decayed_score-IsScore :
      (s : TemporalState) (elapsed : ℕ)
      → IsScore s.anchor_score
      → IsScore (decayed_score e c s elapsed)
  unfolding decayed_score
  decayed_score-IsScore s elapsed h =
      let blend =
        blend_bounds (baseline_score c s) s.anchor_score (e.retention elapsed (stale_after c))
          (baseline-le-anchor c s) (e.retention_le elapsed (stale_after c)) in
      round_product-le _ (points 100) (omega arith) (omega arith)

  advance_without-IsStored :
      (previous : Option TemporalState) (o : Option Observation) (now : ℕ)
      → AllStored c now previous
      → IsStored c now (advance_without e c previous o now).temporal_state
        × IsScore (advance_without e c previous o now).score
  unfolding advance_without is_temporal_state
  advance_without-IsStored none o now h = ground arith
  advance_without-IsStored (some s) o now h = elim (Option-cases s.last_fresh_observed_at) [
    | inl never ↦ ground arith
    | inr (t, seen) ↦ ground (arith, decayed_score-IsScore s ((now - t) - stale_after c))
  ]

  advance_fresh-IsStored :
      (previous : Option TemporalState) (o : Observation) (now : ℕ) {r : Smoothed}
      → AllStored c now previous
      → IsObserved now (some o)
      → advance_fresh c previous o now ≡ ok r
      → IsStored c now r.temporal_state × IsScore r.score
  unfolding advance_fresh is_temporal_state
  advance_fresh-IsStored previous o now h k e = ground (
    arith,
    average_bounds c.smoothing_alpha o.score (prior_score c previous) 0 (points 100)
        configured.alpha_at_most_one,
  )

  -- For an accepted configuration, a stored state that the step accepts or none, and an accepted
  -- observation or none: a step that returns gives a score from 0 to 100, and a state that a step
  -- at the same instant accepts.
  pub advance-IsStored :
      (previous : Option TemporalState) (o : Option Observation) (now : ℕ) {r : Smoothed}
      → AllStored c now previous
      → IsObserved now o
      → advance e c previous o now ≡ ok r
      → IsStored c now r.temporal_state × IsScore r.score
  unfolding advance
  advance-IsStored previous none now {r} h k p =
      let same : advance_without e c previous none now ≡ r = cc in
      rw (← same) (advance_without-IsStored previous none now h)
  advance-IsStored previous (some o) now {r} h k p = elim (advance-cases e c previous o now) [
    | inl (_, is_fresh) ↦ advance_fresh-IsStored previous o now h k (rw is_fresh at p)
    | inr (_, is_stale) ↦
        let same : advance_without e c previous (some o) now ≡ r = cc in
        rw (← same) (advance_without-IsStored previous (some o) now h)
  ]

fresh_err :
    (c : TemporalConfiguration) (previous : Option TemporalState) (o : Observation) (now : ℕ)
    (code : String)
    → now ≤ o.observed_at + stale_after c
    → (advance_fresh c previous o now ≡ err code) ↔ (
        (now ≤ o.observed_at + stale_after c)
        × (t : ℕ) × (last_fresh previous ≡ some t)
        × (o.observed_at ≤ t)
        × (code ≡ "TRUST_OBSERVATION_NOT_NEWER"))
unfolding advance_fresh
fresh_err c previous o now code young = elim (Option-cases (last_fresh previous)) [
  | inl never ↦ ((λ h. ground arith), (λ h. ground arith))
  | inr (t, seen) ↦ (
    (λ h. (young, t, seen, ground arith, ground arith)),
    (λ (_, u, same, old, reason). ground arith),
  )
]

-- A step with an observation is refused with a code exactly when the observation is not stale, it
-- is not newer than the last fresh one, and the code is TRUST_OBSERVATION_NOT_NEWER.
pub advance-err :
    (e : Exponential) (c : TemporalConfiguration) (previous : Option TemporalState)
    (o : Observation) (now : ℕ) (code : String)
    → (advance e c previous (some o) now ≡ err code) ↔ (
        (now ≤ o.observed_at + stale_after c)
        × (t : ℕ) × (last_fresh previous ≡ some t)
        × (o.observed_at ≤ t)
        × (code ≡ "TRUST_OBSERVATION_NOT_NEWER"))
unfolding advance
advance-err e c previous o now code = elim (advance-cases e c previous o now) [
  | inl (young, is_fresh) ↦ rw is_fresh (fresh_err c previous o now code young)
  | inr (old, is_stale) ↦ ((λ h. cc), (λ h. absurd (omega arith)))
]
