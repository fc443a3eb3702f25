-- ===== src/Orchestrator/Outcomes.antt =====
-- What a trigger decision guarantees: when it revokes, and what its actions do to a subject.
use tenant_trust.Orchestrator.Kinds.{
  HasTwo, sort_values, distinct_values, two_kinds, includes_value, includes_value-kinds,
  includes_value_iff,
}
use tenant_trust.Common.{
  ◌≤◌, ◌≡◌, refl, ◌≢◌, ◌⊎◌, ◌↔◌, inl, inr, String, List, [], ◌∷◌, Option, none, some, Bool, true,
  false, arith, ok, err, Option-cases, ◌&&◌, leb→le, le→leb, All, ◌∙◌, sym,
}
use mathlib.Core.List.{Memᴰ}
use tenant_trust.Js.{Value, member, member_named, string}
use tenant_trust.Trust.Controls.Decode.{low, CriticalEvidence, OverrideRule}
use tenant_trust.Trust.Controls.Apply.{critical_override}
use tenant_trust.Orchestrator.State.{SecurityActionState, active, blocked}
use tenant_trust.Orchestrator.Actions.{
  ActionType, restrict_access, suspend_subject, revoke_certificate, PolicyAction, transition,
  map_policy_outcome_to_security_action,
}
use tenant_trust.Orchestrator.Evidence.{TrustTransition, SevereEvidence, actionable_rule}
use tenant_trust.Orchestrator.Triggers.{
  decide_triggers, sources_of, kinds_of, trust_confirms_severe_evidence, normalize_policy_decision,
  choose_actions,
}
use tenant_trust.Common.Sets.{Differ, two_distinct}
use tenant_trust.Orchestrator.Lifecycle.{IsDefined}
use tenant_trust.Orchestrator.Sequences.{act, run}

-- The trust confirms severe evidence: it was overridden into the low band by evidence of a kind that
-- is a text among the evidence, and the score lies under the ceiling of that kind.
abbrev pub Confirms : TrustTransition → List Value → Type 0
Confirms t kinds =
    (t.band ≡ low)
    × (t.transition ≡ critical_override)
    × (e : CriticalEvidence) × (t.critical_override ≡ some e)
    × ((kind : String) × (e.kind ≡ string kind) × Memᴰ e.kind kinds)
    × (r : OverrideRule) × (actionable_rule e.kind ≡ some r)
    × (t.score ≤ r.score_ceiling)

Confirms-of_trust :
    (t : TrustTransition) (kinds : List Value)
    → trust_confirms_severe_evidence t (sort_values (distinct_values kinds)) ≡ true
    → Confirms t kinds
unfolding trust_confirms_severe_evidence
Confirms-of_trust t kinds h = elim (Option-cases t.critical_override) [
  | inl missing ↦ ground arith
  | inr (e, found) ↦ elim (Option-cases (actionable_rule e.kind)) [
    | inl unknown ↦ ground arith
    | inr (r, rule) ↦
        let listed : includes_value (sort_values (distinct_values kinds)) e.kind ≡ true =
          ground arith in
        (
          ground arith,
          ground arith,
          e,
          found,
          (includes_value_iff kinds e.kind).0 (sym (includes_value-kinds kinds e.kind) ∙ listed),
          r,
          rule,
          ground arith,
        )
  ]
]

trust-of_Confirms :
    (t : TrustTransition) (kinds : List Value)
    → Confirms t kinds
    → trust_confirms_severe_evidence t (sort_values (distinct_values kinds)) ≡ true
unfolding trust_confirms_severe_evidence
trust-of_Confirms t kinds (b, o, e, found, m, r, rule, below) =
    let listed = includes_value-kinds kinds e.kind ∙ (includes_value_iff kinds e.kind).1 m in
    ground arith

and_true : (a b c : Bool) → (a && b && c) ≡ true → (a ≡ true) × (b ≡ true) × (c ≡ true)
and_true a b c h = ground arith

true_and : (a b c : Bool) → a ≡ true → b ≡ true → c ≡ true → (a && b && c) ≡ true
true_and a b c p q r = ground arith

-- A trigger decision authorizes a revocation exactly when two entries of the evidence come from
-- different sources, two entries have kinds that are not the same text (an array of one text is the
-- same as no other kind), and the trust confirms them: it is in the low band by a critical override
-- of a kind that is a text among the kinds of the evidence, at a score up to the ceiling of that
-- kind.
pub revocation_authorized_iff :
    (policy : Option PolicyAction) (t : TrustTransition) (es : List SevereEvidence)
    → ((decide_triggers policy t es).revocation_authorized ≡ true)
      ↔ (Differ (sources_of es) × HasTwo (kinds_of es) × Confirms t (kinds_of es))
unfolding decide_triggers
revocation_authorized_iff policy t es = (
  λ h.
      let (sources, kinds, trust) = and_true _ _ _ h in
      (
        (two_distinct (sources_of es)).0 (leb→le _ _ sources),
        (two_kinds (kinds_of es)).0 (leb→le _ _ kinds),
        Confirms-of_trust t (kinds_of es) trust,
      ),
  λ (sources, kinds, trust).
      true_and _ _ _ (le→leb _ _ ((two_distinct (sources_of es)).1 sources))
        (le→leb _ _ ((two_kinds (kinds_of es)).1 kinds)) (trust-of_Confirms t (kinds_of es) trust),
)

-- The policy part of a decision names one of the two actions of a quarantine.
abbrev pub IsQuarantine : Option PolicyAction → Type 0
IsQuarantine none = Unit
IsQuarantine (some p) = (p.action_type ≡ restrict_access) ⊎ (p.action_type ≡ suspend_subject)

pub normalize_policy_decision-IsQuarantine :
    (v : Value) {policy : Option PolicyAction}
    → normalize_policy_decision v ≡ ok policy
    → IsQuarantine policy
unfolding normalize_policy_decision map_policy_outcome_to_security_action member member_named
normalize_policy_decision-IsQuarantine v {policy = none} h = tt
normalize_policy_decision-IsQuarantine v {policy = some p} h = ground arith

abbrev pub Contains : ActionType → List ActionType → Type 0
Contains a [] = ⊥
Contains a (b ∷ actions) = (b ≡ a) ⊎ Contains a actions

-- What holds of the chosen actions, for every value of the authorization.
chosen-revokes :
    (b : Bool) (es : List SevereEvidence) (policy : Option PolicyAction)
    → IsQuarantine policy
    → Contains revoke_certificate (choose_actions b es policy).1 ↔ (b ≡ true)
unfolding choose_actions
chosen-revokes true es policy q = ground arith
chosen-revokes false [] none q = ground arith
chosen-revokes false [] (some p) q = ground arith
chosen-revokes false (e ∷ es) none q = ground arith
chosen-revokes false (e ∷ es) (some p) q = ground arith

chosen-not_refused :
    (b : Bool) (es : List SevereEvidence) (policy : Option PolicyAction) (s : SecurityActionState)
    (code : String)
    → IsQuarantine policy
    → IsDefined s
    → All (λ a. transition s a ≢ err code) (choose_actions b es policy).1
unfolding choose_actions transition
chosen-not_refused true es policy s code q d = ground arith
chosen-not_refused false [] none s code q d = tt
chosen-not_refused false [] (some p) s code q d = ground arith
chosen-not_refused false (e ∷ es) none s code q d = ground arith
chosen-not_refused false (e ∷ es) (some p) s code q d = ground arith

chosen-blocks_renewal :
    (b : Bool) (e : SevereEvidence) (es : List SevereEvidence) (policy : Option PolicyAction)
    (s : SecurityActionState)
    → IsQuarantine policy
    → IsDefined s
    → s.target_certificate ≡ active
    → (run s (choose_actions b (e ∷ es) policy).1).renewal ≡ blocked
unfolding choose_actions run act transition
chosen-blocks_renewal true e es policy s q d c = ground arith
chosen-blocks_renewal false e es none s q d c = ground arith
chosen-blocks_renewal false e es (some p) s q d c = ground arith

module _ (policy : Option PolicyAction) (t : TrustTransition) (es : List SevereEvidence) where
  -- For a policy part that is none or a quarantine action, the actions of a trigger decision hold a
  -- revocation exactly when the decision authorizes one.
  pub decide_triggers-revokes :
      IsQuarantine policy
      → Contains revoke_certificate (decide_triggers policy t es).action_types
        ↔ ((decide_triggers policy t es).revocation_authorized ≡ true)
  unfolding decide_triggers
  decide_triggers-revokes q = chosen-revokes _ es policy q

  -- For a policy part that is none or a quarantine action, no action of a trigger decision is
  -- refused, with any code, in any defined state.
  pub decide_triggers-not_refused :
      (s : SecurityActionState) (code : String)
      → IsQuarantine policy
      → IsDefined s
      → All (λ a. transition s a ≢ err code) (decide_triggers policy t es).action_types
  unfolding decide_triggers
  decide_triggers-not_refused s code q d = chosen-not_refused _ es policy s code q d

-- On a defined state with an active certificate, with some severe evidence and a policy part that
-- is none or a quarantine action, making the actions of a trigger decision leaves the renewal
-- blocked.
pub decide_triggers-blocks_renewal :
    (policy : Option PolicyAction) (t : TrustTransition) (es : List SevereEvidence)
    (s : SecurityActionState)
    → es ≢ []
    → IsQuarantine policy
    → IsDefined s
    → s.target_certificate ≡ active
    → (run s (decide_triggers policy t es).action_types).renewal ≡ blocked
unfolding decide_triggers
decide_triggers-blocks_renewal policy t [] s ne q d c = absurd (ne refl)
decide_triggers-blocks_renewal policy t (e ∷ es) s ne q d c =
    chosen-blocks_renewal _ e es policy s q d c
