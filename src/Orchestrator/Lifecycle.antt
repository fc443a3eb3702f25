-- ===== src/Orchestrator/Lifecycle.antt =====
-- What the security actions guarantee: the states that they keep, when they are refused, and what
-- no sequence of them can do.
use tenant_trust.Common.{◌≡◌, ◌≢◌, ◌↔◌, String, Option, none, some, false, arith, ok, err}
use tenant_trust.Orchestrator.State.{
  suspended, blocked, active, revoked, not_required, required, SecurityActionState,
  check_security_action_state,
}
use tenant_trust.Orchestrator.Actions.{
  ActionType, restrict_access, revoke_certificate, restore_access, issue_replacement_certificate,
  definition_by_id, TransitionResult, transition, Effect,
}

-- A state that defineSecurityActionState accepts, stated without its tests: a suspended subject
-- cannot renew, a replacement is in question exactly when the certificate is revoked, and until the
-- replacement is issued the subject stays suspended.
pub record IsDefined (s : SecurityActionState) : Type 0 where
  pub suspended_blocked : s.access ≡ suspended → s.renewal ≡ blocked
  pub active_none : s.target_certificate ≡ active → s.replacement ≡ not_required
  pub revoked_some : s.target_certificate ≡ revoked → s.replacement ≢ not_required
  pub pending_suspended : s.replacement ≡ required → s.access ≡ suspended

-- The checks of defineSecurityActionState accept a state exactly when a suspended subject cannot
-- renew, a replacement is in question just for a revoked certificate, and a subject whose
-- replacement is required is suspended.
pub check_security_action_state_lem :
    (s : SecurityActionState) → (check_security_action_state s ≡ ok s) ↔ IsDefined s
unfolding check_security_action_state
check_security_action_state_lem s = ground arith

-- When an action is refused: the two guards of recovery, with their reason codes.
abbrev pub Refused : ActionType → SecurityActionState → String → Type 0
Refused issue_replacement_certificate s code =
    (s.target_certificate ≡ active) × (code ≡ "REPLACEMENT_NOT_REQUIRED")
Refused restore_access s code =
    (s.replacement ≡ required) × (code ≡ "REPLACEMENT_REQUIRED_BEFORE_RECOVERY")
Refused _ s code = ⊥

-- On a defined state, an action is refused with a code exactly when it is the issue of a
-- replacement for an active certificate, with REPLACEMENT_NOT_REQUIRED, or the restoration of
-- access while a replacement is required, with REPLACEMENT_REQUIRED_BEFORE_RECOVERY.
pub transition-err :
    (s : SecurityActionState) (a : ActionType) (code : String)
    → IsDefined s
    → (transition s a ≡ err code) ↔ Refused a s code
unfolding transition
transition-err s a code h = ground arith

pub transition-IsDefined :
    (s : SecurityActionState) (a : ActionType) {r : TransitionResult}
    → IsDefined s
    → transition s a ≡ ok r
    → IsDefined r.state
unfolding transition
transition-IsDefined s a h e = ground arith

-- The result names the action with its definition, tells a change from none, and never claims that
-- the certificate is active again.
pub transition-result :
    (s : SecurityActionState) (a : ActionType) {r : TransitionResult}
    → transition s a ≡ ok r
    → (r.action_type ≡ a)
      × (r.authority ≡ (definition_by_id a).authority)
      × (r.reversible ≡ (definition_by_id a).reversible)
      × ((r.changed ≡ false) ↔ (r.state ≡ s))
      × (r.target_certificate_reactivated ≡ false)
unfolding transition
transition-result s a e = ground arith

-- On a defined state, an action that was made is made again, with the same result but for the mark
-- of a change.
pub transition_idem :
    (s : SecurityActionState) (a : ActionType) {r : TransitionResult}
    → IsDefined s
    → transition s a ≡ ok r
    → transition r.state a ≡ ok (record r { changed = false })
unfolding transition
transition_idem s a h e = ground arith

abbrev pub or_else {ℓ} : {A : Type ℓ} → Option A → A → A
or_else none a = a
or_else (some b) _ = b

-- The declared effect, put into a state.
abbrev pub with_effect : Effect → SecurityActionState → SecurityActionState
with_effect e s = record {
  access = or_else e.access s.access;
  renewal = or_else e.renewal s.renewal;
  target_certificate = or_else e.target_certificate s.target_certificate;
  replacement = or_else e.replacement s.replacement;
}

-- Where the declared effect would not loosen the state: a suspended subject is not merely
-- restricted, and a certificate is not revoked twice.
abbrev pub Tightens : ActionType → SecurityActionState → Type 0
Tightens restrict_access s = s.access ≢ suspended
Tightens revoke_certificate s = s.target_certificate ≡ active
Tightens _ s = Unit

-- An action that is made leads to the state with its declared effect, unless it would restrict a
-- suspended subject or revoke a revoked certificate.
pub transition-effect :
    (s : SecurityActionState) (a : ActionType) {r : TransitionResult}
    → Tightens a s
    → transition s a ≡ ok r
    → r.state ≡ with_effect (definition_by_id a).effect s
unfolding transition
transition-effect s a t e = ground arith

-- Elsewhere the action leaves the state alone.
pub transition-no_effect :
    (s : SecurityActionState) (a : ActionType) {r : TransitionResult}
    → ¬ (Tightens a s)
    → transition s a ≡ ok r
    → r.state ≡ s
unfolding transition
transition-no_effect s restrict_access t e = ground arith
transition-no_effect s revoke_certificate t e = ground arith
transition-no_effect s _ t e = absurd (t tt)
