-- ===== src/Threat/Locking.antt =====
-- What the lock of an assessment guarantees over every history of calls.
use volunteer_training.Prelude.{
  ℕ, ◌≡◌, refl, ◌≢◌, ◌⊎◌, inl, inr, Bool-cases, true, false, List, [], ◌∷◌, String, arith,
}
use volunteer_training.Prelude.Result.{ok_or}
use volunteer_training.Threat.Values.{
  QuarantineDecision, policy, is_policy, none_decision, quarantine_decision, is_locked,
}
use volunteer_training.Threat.Assessment.{
  ThreatAssessment, from_props, create, assess_authentication, assess_lookalike,
  assess_intent_classification, override_quarantine,
}
use volunteer_training.Threat.History.{
  Operation, authentication, lookalike, intent, override, apply, run,
}

-- A lock always stands for the irreversible quarantine that policy decided.
pub record IsGuarded (a : ThreatAssessment) : Type 0 where
  pub lock_stands : a.assessment_locked ≡ true → is_locked a.props.quarantine_decision ≡ true
  pub by_policy : a.assessment_locked ≡ true → a.props.quarantine_decision.decided_by ≡ policy

apply-IsGuarded :
    (a : ThreatAssessment) (o : Operation) → IsGuarded a → IsGuarded (ok_or a (apply a o))
unfolding apply assess_authentication assess_lookalike assess_intent_classification
    override_quarantine is_locked quarantine_decision
apply-IsGuarded a (authentication s now) h = ground arith
apply-IsGuarded a (lookalike s now) h = ground arith
apply-IsGuarded a (intent i now) h = ground arith
apply-IsGuarded a (override d now) h = ground arith

run_keeps : (a : ThreatAssessment) (os : List Operation) → IsGuarded a → IsGuarded (run a os)
unfolding run
run_keeps a [] h = h
run_keeps a (o ∷ os) h = run_keeps (ok_or a (apply a o)) os (apply-IsGuarded a o h)

-- After any history of calls from a new assessment, overrides and failed calls included, a lock
-- stands for the irreversible quarantine that policy decided.
pub run_locked_by_policy :
    (t m : String) (now : ℕ) (os : List Operation)
    → (run (create t m now) os).assessment_locked ≡ true
    → (is_locked (run (create t m now) os).props.quarantine_decision ≡ true)
      × ((run (create t m now) os).props.quarantine_decision.decided_by ≡ policy)
unfolding create from_props none_decision is_locked
run_locked_by_policy t m now os l =
    let guarded = run_keeps (create t m now) os (ground arith) in
    (guarded.lock_stands l, guarded.by_policy l)

-- Only an override by an admin or a user opens a locked assessment, and then its decision is the
-- override's; in every other case a locked assessment is left exactly as it was.
pub apply_of_locked :
    (a : ThreatAssessment) (o : Operation)
    → a.assessment_locked ≡ true
    → (ok_or a (apply a o) ≡ a)
      ⊎ ((d : QuarantineDecision) × (now : ℕ) × (o ≡ override d now)
          × (d.decided_by ≢ policy)
          × ((ok_or a (apply a o)).props.quarantine_decision ≡ d)
          × ((ok_or a (apply a o)).assessment_locked ≡ false))
unfolding apply assess_authentication assess_lookalike assess_intent_classification
    override_quarantine
apply_of_locked a (authentication s now) l = ground arith
apply_of_locked a (lookalike s now) l = ground arith
apply_of_locked a (intent i now) l = ground arith
apply_of_locked a (override d now) l = elim (Bool-cases (is_policy d.decided_by)) [
  | inl p ↦ inl (ground arith)
  | inr n ↦ inr (d, now, refl, (λ e. ground arith), ground arith, ground arith)
]
