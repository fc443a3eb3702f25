-- ===== src/Trust/Controls/Bounds.antt =====
-- The bounds on a controlled score: its range, the cap of a source, the ceiling of an override.
use tenant_trust.Common.{ℕ, ◌+◌, ◌*◌, ◌-◌, ◌≤◌, ◌≡◌, arith, leb, if◌then◌else◌, ◌⊎◌}
use tenant_trust.Common.Int.{pos, ◌+ℤ◌, ◌-ℤ◌, min_ℤ, max_ℤ}
use tenant_trust.Trust.Rounding.{
  round_score-pos, rounded, IsRounded, IsScore, round_score-eq-rounded,
}
use tenant_trust.Trust.Controls.Decode.{ControlState, Source, CriticalEvidence}
use tenant_trust.Trust.Controls.Apply.{maximum_delta, bounded_delta, bounded_score, override_score}

-- The cap of a source: its influence in points, rounded.
abbrev pub cap_of : Source → ℕ
cap_of source = rounded (source.maximum_influence * 100)

pub maximum_delta_lem : (source : Source) → maximum_delta source ≡ pos (cap_of source)
unfolding maximum_delta
maximum_delta_lem source = round_score-pos (source.maximum_influence * 100)

-- The candidate, moved to at most the cap away from the previous score.
abbrev pub clamped : ℕ → ℕ → ℕ → ℕ
clamped p c d =
    if leb c p then if leb (p - d) c then c else p - d else if leb c (p + d) then c else p + d

sum_of_deltas :
    (p c d : ℕ)
    → pos p +ℤ max_ℤ (pos 0 -ℤ pos d) (min_ℤ (pos d) (pos c -ℤ pos p)) ≡ pos (clamped p c d)
unfolding ◌+ℤ◌ ◌-ℤ◌
sum_of_deltas p c d = ground arith

pub bounded_score_lem :
    (p : ControlState) (c : ℕ) (s : Source)
    → bounded_score p c s ≡ rounded (clamped p.score c (cap_of s))
unfolding bounded_score bounded_delta
bounded_score_lem p c s =
    rw (maximum_delta_lem s, sum_of_deltas p.score c (cap_of s))
      (round_score-eq-rounded (clamped p.score c (cap_of s)))

module _ (p : ControlState) (c : ℕ) (s : Source) where
  pub bounded_score-IsScore : IsScore p.score → IsScore c → IsScore (bounded_score p c s)
  bounded_score-IsScore hp hc = rw (bounded_score_lem p c s) (ground arith)

  pub bounded_score-IsRounded : IsRounded (bounded_score p c s)
  bounded_score-IsRounded = rw (bounded_score_lem p c s) (omega arith)

  -- From a previous score in whole hundredths, the bounded score lies at most the rounded cap of
  -- the source away from it, upwards and downwards.
  pub bounded_score_capped :
      IsRounded p.score
      → (bounded_score p c s ≤ p.score + cap_of s) × (p.score ≤ bounded_score p c s + cap_of s)
  bounded_score_capped h = rw (bounded_score_lem p c s) (ground arith)

  -- From a previous score in whole hundredths, the bounded score lies between the previous score
  -- and the rounded candidate.
  pub bounded_score_between :
      IsRounded p.score
      → ((p.score ≤ bounded_score p c s) × (bounded_score p c s ≤ rounded c) × (p.score ≤ c))
        ⊎ ((bounded_score p c s ≤ p.score) × (rounded c ≤ bounded_score p c s) × (c ≤ p.score))
  bounded_score_between h = rw (bounded_score_lem p c s) (ground arith)

  -- A candidate within the cap is taken as it is, up to the rounding.
  pub bounded_score_uncapped :
      p.score ≤ c + cap_of s → c ≤ p.score + cap_of s → bounded_score p c s ≡ rounded c
  bounded_score_uncapped h k = rw (bounded_score_lem p c s) (ground arith)

min_of_scores :
    (p c k : ℕ)
    → min_ℤ (pos p) (min_ℤ (pos c) (pos k))
      ≡ pos (if leb p (if leb c k then c else k) then p else if leb c k then c else k)
min_of_scores p c k = ground arith

module _ (p : ControlState) (c : ℕ) (e : CriticalEvidence) where
  pub override_score_lem :
      override_score p c e
      ≡ rounded (
          if leb p.score (if leb c e.rule.score_ceiling then c else e.rule.score_ceiling)
          then p.score
          else if leb c e.rule.score_ceiling
          then c
          else e.rule.score_ceiling)
  unfolding override_score
  override_score_lem = rw (min_of_scores p.score c e.rule.score_ceiling) (round_score-eq-rounded _)

  -- From a previous score and a ceiling in whole hundredths, the score of critical evidence is in
  -- whole hundredths and at most the previous score, the rounded candidate and the ceiling.
  pub override_score_bounds :
      IsRounded p.score
      → IsRounded e.rule.score_ceiling
      → (override_score p c e ≤ p.score)
        × (override_score p c e ≤ rounded c)
        × (override_score p c e ≤ e.rule.score_ceiling)
        × IsRounded (override_score p c e)
  override_score_bounds h k = rw override_score_lem (ground arith)
