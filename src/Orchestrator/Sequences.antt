-- ===== src/Orchestrator/Sequences.antt =====
-- Sequences of security actions. A refused action throws and leaves the stored state as it was.
use tenant_trust.Common.{◌≡◌, ◌≢◌, sym, ◌⊎◌, inl, inr, List, [], ◌∷◌, arith, Result, ok, err}
use mathlib.Core.List.{Memᴰ}
use tenant_trust.Orchestrator.State.{suspended, revoked, issued, SecurityActionState}
use tenant_trust.Orchestrator.Actions.{
  ActionType, issue_replacement_certificate, TransitionResult, transition,
}
use tenant_trust.Orchestrator.Lifecycle.{IsDefined}

abbrev state_after : Result TransitionResult → SecurityActionState → SecurityActionState
state_after (ok r) s = r.state
state_after (err _) s = s

-- The state after one action, and after a sequence.
unfoldable pub act : SecurityActionState → ActionType → SecurityActionState
act s a = state_after (transition s a) s

unfoldable pub run : SecurityActionState → List ActionType → SecurityActionState
run s [] = s
run s (a ∷ actions) = run (act s a) actions

act-IsDefined : (s : SecurityActionState) (a : ActionType) → IsDefined s → IsDefined (act s a)
unfolding act transition
act-IsDefined s a h = ground arith

-- A sequence of actions leads from a defined state to a defined state.
pub run-IsDefined :
    (s : SecurityActionState) (actions : List ActionType) → IsDefined s → IsDefined (run s actions)
unfolding run
run-IsDefined s [] h = h
run-IsDefined s (a ∷ actions) h = run-IsDefined (act s a) actions (act-IsDefined s a h)

act-revoked :
    (s : SecurityActionState) (a : ActionType)
    → s.target_certificate ≡ revoked
    → (act s a).target_certificate ≡ revoked
unfolding act transition
act-revoked s a h = ground arith

-- A sequence of actions never makes a revoked certificate active again.
pub run-revoked :
    (s : SecurityActionState) (actions : List ActionType)
    → s.target_certificate ≡ revoked
    → (run s actions).target_certificate ≡ revoked
unfolding run
run-revoked s [] h = h
run-revoked s (a ∷ actions) h = run-revoked (act s a) actions (act-revoked s a h)

act-pending :
    (s : SecurityActionState) (a : ActionType)
    → IsDefined s
    → s.replacement ≢ issued
    → (a ≡ issue_replacement_certificate) ⊎ ((act s a).replacement ≢ issued)
unfolding act transition
act-pending s a h p = ground arith

issued_needs_issue :
    (s : SecurityActionState) (actions : List ActionType)
    → IsDefined s
    → s.replacement ≢ issued
    → (run s actions).replacement ≡ issued
    → Memᴰ issue_replacement_certificate actions
unfolding run
issued_needs_issue s [] h p e = absurd (p e)
issued_needs_issue s (a ∷ actions) h p e = elim (act-pending s a h p) [
  | inl q ↦ Memᴰ.head (sym q)
  | inr q ↦ Memᴰ.tail (issued_needs_issue (act s a) actions (act-IsDefined s a h) q e)
]

-- For a sequence of actions from a defined state with no issued replacement: if the certificate is
-- revoked at the end and the access is not suspended, then the sequence holds an issue of a
-- replacement certificate.
pub access_needs_replacement :
    (s : SecurityActionState) (actions : List ActionType)
    → IsDefined s
    → s.replacement ≢ issued
    → (run s actions).target_certificate ≡ revoked
    → (run s actions).access ≢ suspended
    → Memᴰ issue_replacement_certificate actions
access_needs_replacement s actions h p c a =
    issued_needs_issue s actions h p (ground (arith, run-IsDefined s actions h))
