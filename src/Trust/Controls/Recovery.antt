-- ===== src/Trust/Controls/Recovery.antt =====
-- How bands change: deterioration at once, recovery one band at a time after two corroborated
-- evaluations in a row.
use tenant_trust.Trust.Rounding.{IsScore}
use tenant_trust.Js.{points}
use tenant_trust.Common.{
  ℕ, ◌+◌, ◌*◌, ◌≤◌, ◌<◌, ◌≡◌, ◌⊎◌, ◌↔◌, List, [], ◌∷◌, Option, none, some, true, arith, length, ◌≢◌,
}
use tenant_trust.Trust.Controls.Decode.{
  Band, low, high, index_of, ControlState, Source, CriticalEvidence, recovery_threshold,
  is_control_state,
}
use tenant_trust.Trust.Controls.Apply.{plain_result, control, critical_result}
use tenant_trust.Trust.Controls.Invariant.{AllOverride, IsControlled, control-IsControlled}

-- A qualifying evaluation: the score reaches the recovery threshold of the band that the state is
-- in, and the evidence comes from at least two sources.
abbrev pub Qualifies : Band → ℕ → Source → Type 0
Qualifies band score source = elim (recovery_threshold band) [
  | none ↦ ⊥
  | some threshold ↦ (threshold ≤ score) × (2 ≤ length source.distinct_source_ids)
]

-- From a consistent control state, without critical evidence, the band rises exactly when the
-- streak is 1 and the score reaches the recovery threshold of the band with at least two distinct
-- sources.
pub plain_result-recovered :
    (p : ControlState) (s : Source) (c n : ℕ)
    → is_control_state p ≡ true
    → (index_of p.band < index_of (plain_result p s c n).band)
      ↔ ((p.recovery_streak ≡ 1) × Qualifies p.band n s)
unfolding plain_result is_control_state
plain_result-recovered p s c n k = ground arith

-- A recovery step on the ladder low, medium, high: twice the band, and the streak.
abbrev pub rung : Band → ℕ → ℕ
rung band streak = 2 * index_of band + streak

pub control-rung :
    (p : ControlState) (c : ℕ) (s : Source) (e : Option CriticalEvidence)
    → is_control_state p ≡ true
    → AllOverride e
    → let r = control p c s e in
      rung r.state.band r.state.recovery_streak ≤ rung p.band p.recovery_streak + 1
unfolding control plain_result critical_result is_control_state
control-rung p c s none k o = ground arith
control-rung p c s (some e) k o = ground arith

-- Without critical evidence, the band falls exactly when the score is below 35 in a band other than
-- low, or below 65 in the high band.
pub plain_result-deteriorated :
    (p : ControlState) (s : Source) (c n : ℕ)
    → (index_of (plain_result p s c n).band < index_of p.band)
      ↔ ((n < points 35 × (p.band ≢ low)) ⊎ (n < points 65 × (p.band ≡ high)))
unfolding plain_result
plain_result-deteriorated p s c n = ground arith

-- An evaluation without its decoding: the candidate score, its source and the critical evidence.
pub record Evaluation : Type 0 where
  pub candidate : ℕ
  pub source : Source
  pub evidence : Option CriticalEvidence

-- What the decoding makes sure of.
pub record IsDecoded (e : Evaluation) : Type 0 where
  pub in_range : IsScore e.candidate
  pub override : AllOverride e.evidence

-- The states of a subject over a sequence of evaluations, each stored and read back.
unfoldable pub evaluate : ControlState → List Evaluation → ControlState
evaluate p [] = p
evaluate p (e ∷ es) = evaluate (control p e.candidate e.source e.evidence).state es

abbrev pub AllDecoded : List Evaluation → Type 0
AllDecoded [] = Unit
AllDecoded (e ∷ es) = IsDecoded e × AllDecoded es

pub evaluate-rung :
    (p : ControlState) (es : List Evaluation)
    → IsControlled p
    → AllDecoded es
    → (rung (evaluate p es).band (evaluate p es).recovery_streak
        ≤ rung p.band p.recovery_streak + length es)
      × IsControlled (evaluate p es)
unfolding evaluate
evaluate-rung p [] h d = (omega arith, h)
evaluate-rung p (e ∷ es) h d =
    let next =
      control-IsControlled p e.candidate e.source e.evidence h.in_range d.0.in_range h.consistent
        d.0.override in
    let step = control-rung p e.candidate e.source e.evidence h.consistent d.0.override in
    let (bound, last) =
      evaluate-rung (control p e.candidate e.source e.evidence).state es next d.1 in
    (omega arith, last)

-- A subject in the low band with no streak that is in the high band after a sequence of decoded
-- evaluations has had at least four of them.
pub high_needs_evaluations :
    (p : ControlState) (es : List Evaluation)
    → IsControlled p
    → AllDecoded es
    → p.band ≡ low
    → p.recovery_streak ≡ 0
    → (evaluate p es).band ≡ high
    → 4 ≤ length es
high_needs_evaluations p es h d b z e = ground (arith, evaluate-rung p es h d)
