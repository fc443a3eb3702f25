-- ===== src/Orchestrator/Governed/Evaluated.antt =====
-- services/orchestrator/src/governed-recovery.mjs and index.mjs: what an evaluation that makes an action
-- eligible says of the loaded context.
use tenant_trust.Orchestrator.Lifecycle.{IsDefined, check_security_action_state_lem}
use tenant_trust.Orchestrator.Evidence.{
  Target, SevereEvidence, normalize_target, normalize_severe_evidence, normalize_severe_entry,
}
use tenant_trust.Orchestrator.State.{
  check_security_action_state, define_security_action_state, SecurityActionState,
  initial_security_action_state, read_security_action_state, access_states, renewal_states,
  certificate_states, replacement_states,
}
use tenant_trust.Orchestrator.Recovery.{
  RecoveryDecision, evaluate_security_action_recovery, Checkpoint, normalize_recovery_checkpoint,
  decide_recovery,
}
use tenant_trust.Common.{
  List, [], some, Bool, refl, ok, ◌≡◌, Result, arith, >>=-eq-ok, guard, ◌∷◌, or_fail, or_fail-eq-ok,
  subst, map_result, ℕ, length, distinct, map, ◌==◌, ◌∙◌, ap,
}
use tenant_trust.Js.{
  Value, get, as_boolean, has_exact_keys, canonical_utc, member, boolean, number, string, array,
  object, undefined, null, as_array,
}

check_security_action_state-same :
    (s r : SecurityActionState) → check_security_action_state s ≡ ok r → s ≡ r
unfolding check_security_action_state
check_security_action_state-same s r h = ground arith

read_security_action_state-IsDefined :
    (value : Value) (s : SecurityActionState)
    → read_security_action_state value ≡ ok s
    → IsDefined s
unfolding read_security_action_state
read_security_action_state-IsDefined value s h =
    let (_, _, h1) =
      >>=-eq-ok
        (guard
          (has_exact_keys value ("access" ∷ "renewal" ∷ "targetCertificate" ∷ "replacement" ∷ []))
          _)
        _ h in
    let (a, _, h2) = >>=-eq-ok (or_fail (member access_states (get value "access")) _) _ h1 in
    let (r, _, h3) = >>=-eq-ok (or_fail (member renewal_states (get value "renewal")) _) _ h2 in
    let (c, _, h4) =
      >>=-eq-ok (or_fail (member certificate_states (get value "targetCertificate")) _) _ h3 in
    let (p, _, h5) =
      >>=-eq-ok (or_fail (member replacement_states (get value "replacement")) _) _ h4 in
    let read : SecurityActionState = record {
      access = a;
      renewal = r;
      target_certificate = c;
      replacement = p;
    } in
    let same = check_security_action_state-same read s h5 in
    (check_security_action_state_lem s).0
      (subst (λ u. check_security_action_state u ≡ ok s) same h5)

initial_checked :
    check_security_action_state initial_security_action_state ≡ ok initial_security_action_state
unfolding check_security_action_state
initial_checked = refl

initial_same :
    {s : SecurityActionState}
    → ok initial_security_action_state ≡ ok s
    → initial_security_action_state ≡ s
initial_same h = cc

-- A state that defineSecurityActionState returns is defined.
pub define_security_action_state-IsDefined :
    (value : Value) (s : SecurityActionState)
    → define_security_action_state value ≡ ok s
    → IsDefined s
unfolding define_security_action_state
define_security_action_state-IsDefined undefined s h =
    (check_security_action_state_lem s).0
      (subst (λ r. check_security_action_state r ≡ ok r) (initial_same h) initial_checked)
define_security_action_state-IsDefined null s h = read_security_action_state-IsDefined null s h
define_security_action_state-IsDefined (boolean b) s h =
    read_security_action_state-IsDefined (boolean b) s h
define_security_action_state-IsDefined (number n) s h =
    read_security_action_state-IsDefined (number n) s h
define_security_action_state-IsDefined (string t) s h =
    read_security_action_state-IsDefined (string t) s h
define_security_action_state-IsDefined (array xs) s h =
    read_security_action_state-IsDefined (array xs) s h
define_security_action_state-IsDefined (object p fs) s h =
    read_security_action_state-IsDefined (object p fs) s h

map_result-eq-none :
    {A B : Type 0} (f : A → Result B) (xs : List A) → map_result f xs ≡ ok [] → xs ≡ []
unfolding map_result
map_result-eq-none f [] h = refl
map_result-eq-none f (x ∷ xs) h =
    let (y, _, h1) = >>=-eq-ok (f x) _ h in let (ys, _, h2) = >>=-eq-ok (map_result f xs) _ h1 in cc

-- Evidence that is read as none is an empty array.
pub normalize_severe_evidence-eq-none :
    (value : Value) (t : Target) (at : ℕ)
    → normalize_severe_evidence value t at ≡ ok []
    → as_array value ≡ some []
unfolding normalize_severe_evidence
normalize_severe_evidence-eq-none value t at h =
    let (entries, found, h1) = >>=-eq-ok (or_fail (as_array value) _) _ h in
    let (es, mapped, h2) = >>=-eq-ok (map_result (normalize_severe_entry t at) entries) _ h1 in
    let (_, _, h3) =
      >>=-eq-ok
        (guard
          (length (distinct (map (λ (e : SevereEvidence). e.evidence_id) es))
            == length (map (λ (e : SevereEvidence). e.evidence_id) es))
          _)
        _ h2 in
    let empty : es ≡ [] = cc in
    or_fail-eq-ok (as_array value) _ found
    ∙ ap some (map_result-eq-none _ entries (mapped ∙ ap ok empty))

-- The parts of an evaluation.
pub record Evaluates (input : Value) (d : RecoveryDecision) : Type 0 where
  pub state : SecurityActionState
  pub checkpoint : Checkpoint
  pub evidence : List SevereEvidence
  pub resolved : Bool
  pub target : Target
  pub evaluated_at : ℕ
  pub reads_evidence :
      normalize_severe_evidence (get input "activeSevereEvidence") target evaluated_at ≡ ok evidence
  pub reads_state : define_security_action_state (get input "currentState") ≡ ok state
  pub reads_checkpoint : normalize_recovery_checkpoint (get input "checkpoint") ≡ ok checkpoint
  pub reads_resolved : as_boolean (get input "severeCauseResolved") ≡ some resolved
  pub decides : decide_recovery state checkpoint evidence resolved ≡ d

pub evaluate_security_action_recovery-Evaluates :
    (input : Value) (t : Target) (d : RecoveryDecision)
    → evaluate_security_action_recovery input ≡ ok (t, d)
    → Evaluates input d
unfolding evaluate_security_action_recovery
evaluate_security_action_recovery-Evaluates input t d h =
    let (_, _, h1) =
      >>=-eq-ok
        (guard
          (has_exact_keys input (
            "target" ∷ "currentState" ∷ "checkpoint" ∷ "activeSevereEvidence" ∷ "evaluatedAt"
            ∷ "severeCauseResolved" ∷ []))
          _)
        _ h in
    let (at, _, h2) = >>=-eq-ok (or_fail (canonical_utc (get input "evaluatedAt")) _) _ h1 in
    let (resolved, reads_resolved, h3) =
      >>=-eq-ok (or_fail (as_boolean (get input "severeCauseResolved")) _) _ h2 in
    let (target, _, h4) = >>=-eq-ok (normalize_target (get input "target")) _ h3 in
    let (s, reads_state, h5) =
      >>=-eq-ok (define_security_action_state (get input "currentState")) _ h4 in
    let (c, reads_checkpoint, h6) =
      >>=-eq-ok (normalize_recovery_checkpoint (get input "checkpoint")) _ h5 in
    let (es, reads_evidence, h7) =
      >>=-eq-ok (normalize_severe_evidence (get input "activeSevereEvidence") target at) _ h6 in
    record {
      state = s;
      checkpoint = c;
      evidence = es;
      resolved = resolved;
      target = target;
      evaluated_at = at;
      reads_evidence = reads_evidence;
      reads_state = reads_state;
      reads_checkpoint = reads_checkpoint;
      reads_resolved =
          or_fail-eq-ok (as_boolean (get input "severeCauseResolved")) _ reads_resolved;
      decides = decided h7;
    }
  where
    decided :
        {e : RecoveryDecision} {u : Target}
        → ◌≡◌ {A = Result (Target × RecoveryDecision)} (ok (u, e)) (ok (t, d))
        → e ≡ d
    decided k = cc
