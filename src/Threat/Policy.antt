-- ===== src/Threat/Policy.antt =====
-- Histories in which nobody overrides: what the three checks decide by themselves.
use volunteer_training.Prelude.{
  ℕ, ◌≡◌, ◌⊎◌, true, false, not, ◌&&◌, ◌||◌, List, [], ◌∷◌, String, arith, All, if◌then◌else◌,
}
use volunteer_training.Prelude.Int.{pos, leb_ℤ}
use volunteer_training.Prelude.Result.{ok, ok_or}
use volunteer_training.Threat.Values.{
  AuthenticationSignal, LookalikeScore, IntentClassification, auth_is_high_risk,
  lookalike_is_high_risk, is_high_confidence, is_no_intent, policy, QuarantineAction, quarantine,
  flag, no_action, is_quarantine, none_decision, flag_decision, quarantine_decision, is_locked,
}
use volunteer_training.Threat.Assessment.{
  ThreatAssessment, from_props, create, auth_risk, assess_authentication, assess_lookalike,
  assess_intent_classification,
}
use volunteer_training.Threat.History.{
  Operation, authentication, lookalike, intent, override, apply, run, is_check,
}

-- What holds as long as no decision comes from outside.
pub record IsByPolicy (a : ThreatAssessment) : Type 0 where
  pub decided : a.props.quarantine_decision.decided_by ≡ policy
  pub lock_is_decision : a.assessment_locked ≡ is_locked a.props.quarantine_decision
  pub quarantine_locks : is_quarantine a.props.quarantine_decision.action ≡ a.assessment_locked
  pub open_is_clean :
      (a.assessment_locked ≡ true) ⊎ (auth_risk a.props.authentication_signal ≡ false)

apply-IsByPolicy :
    (a : ThreatAssessment) (o : Operation)
    → is_check o ≡ true
    → IsByPolicy a
    → IsByPolicy (ok_or a (apply a o))
unfolding apply assess_authentication assess_lookalike assess_intent_classification is_locked
    quarantine_decision flag_decision
apply-IsByPolicy a (authentication s now) c h = ground arith
apply-IsByPolicy a (lookalike s now) c h = ground arith
apply-IsByPolicy a (intent i now) c h = ground arith
apply-IsByPolicy a (override d now) c h = cc

abbrev pub AreChecks : List Operation → Type 0
AreChecks = All (λ o. is_check o ≡ true)

run_keeps :
    (a : ThreatAssessment) (os : List Operation)
    → AreChecks os
    → IsByPolicy a
    → IsByPolicy (run a os)
unfolding run
run_keeps a [] c h = h
run_keeps a (o ∷ os) (c, cs) h = run_keeps (ok_or a (apply a o)) os cs (apply-IsByPolicy a o c h)

-- After any list of checks, failed ones included, the decision is policy's, the assessment is locked
-- exactly when the decision counts as locked and exactly when it is a quarantine, and an assessment
-- that is still open has no risky authentication signal.
pub run-IsByPolicy :
    (t m : String) (now : ℕ) (os : List Operation)
    → AreChecks os
    → IsByPolicy (run (create t m now) os)
unfolding create from_props none_decision is_locked
run-IsByPolicy t m now os c = run_keeps (create t m now) os c (ground arith)

-- After any list of checks, a lookalike check that succeeds does not lock: the branch in which
-- lookalike and authentication quarantine together is not reached without an override.
pub assess_lookalike-open :
    (t m : String) (now later : ℕ) (os : List Operation) (s : LookalikeScore) {b : ThreatAssessment}
    → AreChecks os
    → assess_lookalike (run (create t m now) os) s later ≡ ok b
    → b.assessment_locked ≡ false
unfolding assess_lookalike
assess_lookalike-open t m now later os s c e = ground (
  arith,
  (run-IsByPolicy t m now os c).open_is_clean,
  (run-IsByPolicy t m now os c).lock_is_decision,
)

-- The three tiers read side by side.
pub verdict : AuthenticationSignal → LookalikeScore → IntentClassification → QuarantineAction
verdict a s i =
    if auth_is_high_risk a || is_high_confidence i
    then quarantine
    else if lookalike_is_high_risk s
        || (not (is_no_intent i.intent) && leb_ℤ (pos 500) i.confidence)
    then flag
    else no_action

-- The three checks in the order of the tiers come to the verdict of the three signals read side by
-- side: quarantine on risky authentication or a confident intent, else a flag on a risky lookalike or
-- a suspicious intent, else nothing; and they lock exactly at a quarantine.
pub run-verdict :
    (t m : String) (n₀ n₁ n₂ n₃ : ℕ) (a : AuthenticationSignal) (s : LookalikeScore)
    (i : IntentClassification)
    → let r = run (create t m n₀) (authentication a n₁ ∷ lookalike s n₂ ∷ intent i n₃ ∷ []) in
      (r.props.quarantine_decision.action ≡ verdict a s i)
      × (r.assessment_locked ≡ is_quarantine (verdict a s i))
unfolding run apply verdict create from_props none_decision is_locked assess_authentication
    assess_lookalike assess_intent_classification quarantine_decision flag_decision
run-verdict t m n₀ n₁ n₂ n₃ a s i = ground arith
