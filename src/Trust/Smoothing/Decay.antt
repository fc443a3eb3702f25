-- ===== src/Trust/Smoothing/Decay.antt =====
-- The score of a subject that is not observed: it is held, and then decays from the score of the last
-- fresh observation, so that it does not matter how often it is evaluated.
use tenant_trust.Common.{
  ℕ, ◌+◌, ◌-◌, ◌≤◌, ◌<◌, ◌≡◌, ◌⊎◌, inl, inr, Option, none, some, arith, Option-cases,
}
use native.Mathlib.Nat.{mul-le-mul_left}
use tenant_trust.Trust.Rounding.{IsRounded, round_product-le, le-round_product, round_product_mono}
use tenant_trust.Trust.Smoothing.Decode.{TemporalConfiguration, TemporalState, Observation}
use tenant_trust.Trust.Smoothing.Advance.{
  Exponential, advance_without, decayed_score, baseline_score, stale_after, held, decayed,
}
use tenant_trust.Trust.Smoothing.Averages.{blend_bounds, baseline-le-anchor}

module _ (e : Exponential) (c : TemporalConfiguration) where
  pub decayed_score_bounds :
      (s : TemporalState) (elapsed : ℕ)
      → IsRounded c.initial_score
      → IsRounded s.anchor_score
      → (baseline_score c s ≤ decayed_score e c s elapsed)
        × (decayed_score e c s elapsed ≤ s.anchor_score)
  unfolding decayed_score
  decayed_score_bounds s elapsed i a =
      let blend =
        blend_bounds (baseline_score c s) s.anchor_score (e.retention elapsed (stale_after c))
          (baseline-le-anchor c s) (e.retention_le elapsed (stale_after c)) in
      (
        le-round_product _ (baseline_score c s) (ground arith) blend.0,
        round_product-le _ s.anchor_score a blend.1,
      )

  pub decayed_score_antitone :
      (s : TemporalState) (earlier later : ℕ)
      → earlier ≤ later
      → decayed_score e c s later ≤ decayed_score e c s earlier
  unfolding decayed_score
  decayed_score_antitone s earlier later h = round_product_mono _ _ (
      omega (
        arith,
        mul-le-mul_left (s.anchor_score - baseline_score c s)
            (e.retention_antitone earlier later (stale_after c) h),
      ))

  -- A subject that was observed once.
  abbrev pub WasObserved : TemporalState → ℕ → Type 0
  WasObserved s t = s.last_fresh_observed_at ≡ some t

  -- For a subject that was observed, with an initial and an anchor score in whole hundredths and no
  -- fresh observation: either the last one is not yet stale and the score is held, or it is stale
  -- and the score has decayed to between the baseline and the anchor; the anchor and the instant of
  -- the last fresh observation are kept.
  pub advance_without-bounds :
      (s : TemporalState) (t now : ℕ) (o : Option Observation)
      → WasObserved s t
      → IsRounded c.initial_score
      → IsRounded s.anchor_score
      → let r = advance_without e c (some s) o now in
        (((now ≤ t + stale_after c) × (r.phase ≡ held) × (r.score ≡ s.score))
          ⊎ ((t + stale_after c < now)
              × (r.phase ≡ decayed)
              × (baseline_score c s ≤ r.score)
              × (r.score ≤ s.anchor_score)))
        × (r.temporal_state.anchor_score ≡ s.anchor_score)
        × (r.temporal_state.last_fresh_observed_at ≡ some t)
  unfolding advance_without
  advance_without-bounds s t now o seen i a =
      ground (arith, decayed_score_bounds s ((now - t) - stale_after c) i a)

  -- For a subject whose last fresh observation is stale at the earlier of two instants, the score
  -- without a fresh observation at the later one is no higher than at the earlier one.
  pub advance_without-antitone :
      (s : TemporalState) (t earlier later : ℕ) (o o' : Option Observation)
      → WasObserved s t
      → t + stale_after c < earlier
      → earlier ≤ later
      → (advance_without e c (some s) o' later).score
        ≤ (advance_without e c (some s) o earlier).score
  unfolding advance_without
  advance_without-antitone s t earlier later o o' seen old h = ground (
    arith,
    decayed_score_antitone s ((earlier - t) - stale_after c) ((later - t) - stale_after c),
  )

  -- With no fresh observation at either of two instants, an evaluation at the earlier one changes
  -- neither the score nor the state of the evaluation at the later one.
  pub advance_without-twice :
      (previous : Option TemporalState) (earlier later : ℕ) (o o' o'' : Option Observation)
      → earlier ≤ later
      → let between = (advance_without e c previous o earlier).temporal_state in
        let twice = advance_without e c (some between) o' later in
        let once = advance_without e c previous o'' later in
        (twice.score ≡ once.score) × (twice.temporal_state ≡ once.temporal_state)
  unfolding advance_without
  advance_without-twice none earlier later o o' o'' h = ground arith
  advance_without-twice (some s) earlier later o o' o'' h =
      elim (Option-cases s.last_fresh_observed_at) [
        | inl never ↦ ground arith
        | inr (t, seen) ↦ ground arith
      ]
