-- ===== src/Orchestrator/Eligibility.antt =====
-- What a recovery decision guarantees: the action that it names is one that the state machine makes,
-- and the recovery of a subject whose trust is back ends.
use tenant_trust.Common.{
  ◌≤◌, ◌≡◌, ◌≢◌, ◌⊎◌, String, List, [], none, some, Bool, true, arith, length, err,
}
use tenant_trust.Js.{points}
use tenant_trust.Trust.Controls.Decode.{low, high}
use tenant_trust.Trust.Controls.Apply.{recovered}
use tenant_trust.Orchestrator.State.{
  SecurityActionState, normal, suspended, allowed, active, issued,
}
use tenant_trust.Orchestrator.Actions.{
  ActionType, recovery_authorization, definition_by_id, transition,
}
use tenant_trust.Orchestrator.Lifecycle.{IsDefined}
use tenant_trust.Orchestrator.Sequences.{act}
use tenant_trust.Orchestrator.Evidence.{SevereEvidence}
use tenant_trust.Orchestrator.Recovery.{Checkpoint, decide_recovery}

-- The trust of a checkpoint is back, for the state of the subject: the last transition is a recovery
-- with two qualifying evaluations and two sources, in the high band from 75 points if the subject
-- is suspended, blocked or revoked, and in the medium band from 45 points if it is only restricted.
pub record IsTrusted (s : SecurityActionState) (c : Checkpoint) : Type 0 where
  pub is_back : c.transition ≡ recovered
  pub twice : 2 ≤ c.consecutive_qualifying_evaluations
  pub two_sources : 2 ≤ length c.source_ids
  pub at_least_medium : c.band ≢ low
  pub at_least_45 : points 45 ≤ c.score
  pub high_if_strict :
      ((s.target_certificate ≡ active) × (s.access ≢ suspended) × (s.renewal ≡ allowed))
      ⊎ ((c.band ≡ high) × (points 75 ≤ c.score))

-- If a recovery decision names an action, then the trust of the checkpoint is back for the state (a
-- recovery with two evaluations and two sources, in the medium band from 45 points, or in the high
-- band from 75 points unless the subject is at most restricted), no severe evidence is active, and
-- the certificate is active or the cause resolved.
pub decide_recovery-IsTrusted :
    (s : SecurityActionState) (c : Checkpoint) (es : List SevereEvidence) (resolved : Bool)
    {a : ActionType}
    → (decide_recovery s c es resolved).next_action_type ≡ some a
    → IsTrusted s c × (es ≡ []) × ((s.target_certificate ≡ active) ⊎ (resolved ≡ true))
unfolding decide_recovery
decide_recovery-IsTrusted s c es resolved h = ground arith

-- If a recovery decision names an action on a defined state, then the state machine refuses that
-- action with no code, the action changes the state, and its authority is the authorization of a
-- recovery.
pub decide_recovery-transition :
    (s : SecurityActionState) (c : Checkpoint) (es : List SevereEvidence) (resolved : Bool)
    {a : ActionType}
    → IsDefined s
    → (decide_recovery s c es resolved).next_action_type ≡ some a
    → ((code : String) → transition s a ≢ err code)
      × (act s a ≢ s)
      × ((definition_by_id a).authority ≡ recovery_authorization)
unfolding decide_recovery act transition
decide_recovery-transition s c es resolved d h =
    ((λ code e. ground arith), (λ e. ground arith), ground arith)

-- The state after the action that a decision names, if it names one.
unfoldable pub recover_once : Checkpoint → SecurityActionState → SecurityActionState
recover_once c s = elim (decide_recovery s c [] true).next_action_type [
  | none ↦ s
  | some a ↦ act s a
]

-- Trust that is back in full.
pub record IsRecovered (c : Checkpoint) : Type 0 where
  pub is_back : c.transition ≡ recovered
  pub twice : 2 ≤ c.consecutive_qualifying_evaluations
  pub two_sources : 2 ≤ length c.source_ids
  pub in_high : c.band ≡ high
  pub at_least_75 : points 75 ≤ c.score

-- From any defined state, with the trust back in full, no active severe evidence and the cause
-- resolved, making the action that the recovery decision names, twice, leaves normal access and
-- allowed renewal, the certificate as it was, a replacement issued unless the certificate is
-- active, and a decision that names no further action, with NO_RECOVERY_NEEDED.
pub recover_twice :
    (s : SecurityActionState) (c : Checkpoint)
    → IsDefined s
    → IsRecovered c
    → let t = recover_once c (recover_once c s) in
      (t.access ≡ normal)
      × (t.renewal ≡ allowed)
      × (t.target_certificate ≡ s.target_certificate)
      × ((s.target_certificate ≡ active) ⊎ (t.replacement ≡ issued))
      × ((decide_recovery t c [] true).next_action_type ≡ none)
      × ((decide_recovery t c [] true).reason_code ≡ "NO_RECOVERY_NEEDED")
unfolding recover_once decide_recovery act transition
recover_twice s c d r = ground arith
