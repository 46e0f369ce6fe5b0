-- ===== src/Threat/History.antt =====
-- The operations of an assessment as data, and what a list of them does.
use volunteer_training.Prelude.{ℕ, Bool, true, false, List, [], ◌∷◌}
use volunteer_training.Prelude.Result.{Result, ok_or}
use volunteer_training.Threat.Values.{
  AuthenticationSignal, LookalikeScore, IntentClassification, QuarantineDecision,
}
use volunteer_training.Threat.Assessment.{
  ThreatAssessment, assess_authentication, assess_lookalike, assess_intent_classification,
  override_quarantine,
}

pub data Operation : Type 0 where
  authentication : AuthenticationSignal → ℕ → Operation
  lookalike : LookalikeScore → ℕ → Operation
  intent : IntentClassification → ℕ → Operation
  override : QuarantineDecision → ℕ → Operation

unfoldable pub apply : ThreatAssessment → Operation → Result ThreatAssessment
apply a (authentication s now) = assess_authentication a s now
apply a (lookalike s now) = assess_lookalike a s now
apply a (intent i now) = assess_intent_classification a i now
apply a (override d now) = override_quarantine a d now

-- A call that throws is skipped by its caller.
unfoldable pub run : ThreatAssessment → List Operation → ThreatAssessment
run a [] = a
run a (o ∷ os) = run (ok_or a (apply a o)) os

abbrev pub is_check : Operation → Bool
is_check (override d now) = false
is_check _ = true
