-- ===== src/Trust/Controls/Invariant.antt =====
-- What holds of every control state that an evaluation returns, and what one evaluation may change.
use tenant_trust.Common.{
  ℕ, ◌≤◌, ◌<◌, ◌≡◌, refl, String, [], ◌∷◌, Option, none, some, true, arith, ok, >>=-eq-ok, or_fail,
  or_fail-eq-ok,
}
use tenant_trust.Common.Int.{pos}
use tenant_trust.Js.{
  Value, string, member_named, number, finite, object, field, end, points, get, valid_score, member,
  safe_integer, has_exact_keys, indexed, array, cons, nil,
}
use tenant_trust.Trust.Rounding.{IsRounded, IsScore}
use tenant_trust.Trust.Controls.Decode.{
  Band, low, medium, high, band_name, band_set, ControlState, Source, CriticalEvidence,
  OverrideRule, is_control_state, normalize_previous_state, normalize_source,
  normalize_critical_evidence, critical_evidence_override_rules,
}
use tenant_trust.Trust.Controls.Apply.{
  ControlResult, bounded_score, plain_result, critical_result, control,
  apply_trust_transition_controls,
}
use tenant_trust.Trust.Controls.Bounds.{
  bounded_score-IsScore, bounded_score-IsRounded, override_score_lem,
}

-- A state that the next evaluation accepts: a score, rounded, with a band and a streak that the
-- score supports.
pub record IsControlled (s : ControlState) : Type 0 where
  pub in_range : IsScore s.score
  pub in_hundredths : IsRounded s.score
  pub consistent : is_control_state s ≡ true

-- The rules of critical evidence force the low band at a rounded ceiling.
pub record IsOverride (e : CriticalEvidence) : Type 0 where
  pub forces_low : e.rule.forced_band ≡ low
  pub rounded_ceiling : IsRounded e.rule.score_ceiling
  pub ceiling_capped : e.rule.score_ceiling ≤ points 20

abbrev pub AllOverride : Option CriticalEvidence → Type 0
AllOverride none = Unit
AllOverride (some e) = IsOverride e

plain_result-IsControlled :
    (p : ControlState) (s : Source) (c n : ℕ)
    → IsScore n
    → IsRounded n
    → is_control_state p ≡ true
    → IsControlled (plain_result p s c n).state
unfolding plain_result is_control_state
plain_result-IsControlled p s c n h r k = ground arith

critical_result-IsControlled :
    (p : ControlState) (c : ℕ) (s : Source) (e : CriticalEvidence)
    → IsOverride e
    → IsControlled (critical_result p s c e).state
unfolding critical_result is_control_state
critical_result-IsControlled p c s e o = rw (override_score_lem p c e) (ground arith)

pub control-IsControlled :
    (p : ControlState) (c : ℕ) (s : Source) (e : Option CriticalEvidence)
    → IsScore p.score
    → IsScore c
    → is_control_state p ≡ true
    → AllOverride e
    → IsControlled (control p c s e).state
unfolding control
control-IsControlled p c s none hp hc k o =
    plain_result-IsControlled p s c (bounded_score p c s) (bounded_score-IsScore p c s hp hc)
      (bounded_score-IsRounded p c s) k
control-IsControlled p c s (some e) hp hc k o = critical_result-IsControlled p c s e o

pub valid_score-IsScore : (v : Value) {n : ℕ} → valid_score v ≡ some n → IsScore n
unfolding valid_score
valid_score-IsScore v h = ground arith

pub normalize_previous_state-eq-ok :
    (v : Value) {s : ControlState}
    → normalize_previous_state v ≡ ok s
    → IsScore s.score × (is_control_state s ≡ true)
unfolding normalize_previous_state valid_score
normalize_previous_state-eq-ok v h = ground arith

rule_named-IsOverride :
    (kind : String) (r : OverrideRule)
    → member_named critical_evidence_override_rules kind ≡ some r
    → (r.forced_band ≡ low) × IsRounded r.score_ceiling × (r.score_ceiling ≤ points 20)
unfolding member_named
rule_named-IsOverride kind r h = ground arith

rule_indexed-IsOverride :
    (kind : Value) (r : OverrideRule)
    → indexed critical_evidence_override_rules kind ≡ some r
    → (r.forced_band ≡ low) × IsRounded r.score_ceiling × (r.score_ceiling ≤ points 20)
unfolding indexed
rule_indexed-IsOverride (string s) r h = rule_named-IsOverride s r h
rule_indexed-IsOverride (array (cons v nil)) r h = rule_indexed-IsOverride v r h
rule_indexed-IsOverride _ r h = cc

pub normalize_critical_evidence-eq-ok :
    (v : Value) {e : Option CriticalEvidence} → normalize_critical_evidence v ≡ ok e → AllOverride e
unfolding normalize_critical_evidence
normalize_critical_evidence-eq-ok v {e = none} h = tt
normalize_critical_evidence-eq-ok v {e = some e} h =
    ground (arith, rule_indexed-IsOverride e.kind e.rule)

-- If applyTrustTransitionControls returns, the state that it returns has a score from 0 to 100 in
-- whole hundredths, and a band and a streak that this score supports.
pub apply-IsControlled :
    (input : Value) {r : ControlResult}
    → apply_trust_transition_controls input ≡ ok r
    → IsControlled r.state
unfolding apply_trust_transition_controls
apply-IsControlled input {r} h =
    let (p, hp, h1) = >>=-eq-ok (normalize_previous_state (get input "previousState")) _ h in
    let (c, hc, h2) =
      >>=-eq-ok (or_fail (valid_score (get input "candidateScore")) "CANDIDATE_SCORE_INVALID") _
        h1 in
    let (s, hs, h3) = >>=-eq-ok (normalize_source (get input "source")) _ h2 in
    let (e, he, h4) = >>=-eq-ok (normalize_critical_evidence (get input "criticalEvidence")) _ h3 in
    let (in_range, consistent) = normalize_previous_state-eq-ok _ hp in
    let result : control p c s e ≡ r = cc in
    rw (← result) (
      control-IsControlled p c s e in_range
        (valid_score-IsScore _ (or_fail-eq-ok _ "CANDIDATE_SCORE_INVALID" hc)) consistent
        (normalize_critical_evidence-eq-ok _ he))

-- The object that is stored between two evaluations.
abbrev pub state_value : ControlState → Value
state_value s = object true (
    field "score" (number (finite (pos s.score))) (
      field "band" (string (band_name s.band))
        (field "recoveryStreak" (number (finite (pos (points s.recovery_streak)))) end)))

band_named : (b : Band) → member band_set (string (band_name b)) ≡ some b
unfolding member
band_named low = refl
band_named medium = refl
band_named high = refl

streak_of : (n : ℕ) → n < 2 → safe_integer (number (finite (pos (points n)))) ≡ some n
unfolding safe_integer
streak_of n h = ground arith

streak_bound : (s : ControlState) → is_control_state s ≡ true → s.recovery_streak < 2
unfolding is_control_state
streak_bound s h = ground arith

state_keys :
    (s : ControlState)
    → has_exact_keys (state_value s) ("score" ∷ "band" ∷ "recoveryStreak" ∷ []) ≡ true
unfolding has_exact_keys
state_keys s = refl

-- A control state with a score from 0 to 100 in whole hundredths, and a band and a streak that this
-- score supports, is read back from its stored object as it is.
pub normalize_previous_state-state_value :
    (s : ControlState) → IsControlled s → normalize_previous_state (state_value s) ≡ ok s
unfolding normalize_previous_state get valid_score
normalize_previous_state-state_value s h = ground (
  arith,
  state_keys s,
  band_named s.band,
  streak_bound s h.consistent,
  streak_of s.recovery_streak,
)
