-- ===== src/Threat/RoundTrip.antt =====
-- What survives `fromJSON` after `toJSON`.
use volunteer_training.Prelude.{
  ℕ, zero, suc, ◌≡◌, refl, sym, ap, Option, none, some, List, [], ◌∷◌, arith, take, length, ◌≤◌,
}
use volunteer_training.Prelude.Int.{pos, ◌≤ℤ◌}
use volunteer_training.Prelude.Result.{ok}
use volunteer_training.Threat.Values.{
  LookalikeScore, lookalike_score, IntentClassification, intent_classification, is_locked,
}
use volunteer_training.Threat.Assessment.{ThreatAssessment, from_props}
use volunteer_training.Threat.Json.{
  signal_to_json, signal_from_json, lookalike_to_json, lookalike_from_json, intent_to_json,
  intent_from_json, decision_to_json, decision_from_json, to_json, from_json, map_some,
  intent_of_json,
}

take_of_le {ℓ} : {A : Type ℓ} (n : ℕ) (xs : List A) → length xs ≤ n → take n xs ≡ xs
take_of_le zero [] h = refl
take_of_le zero (x ∷ xs) h = absurd (omega arith)
take_of_le (suc n) [] h = refl
take_of_le (suc n) (x ∷ xs) h = ap (λ t. x ∷ t) (take_of_le n xs (omega arith))

-- What the constructors of the value objects establish.
abbrev pub IsComputed : Option LookalikeScore → Type 0
IsComputed none = Unit
IsComputed (some s) = s ≡ lookalike_score s.props

abbrev pub IsIntent : Option IntentClassification → Type 0
IsIntent none = Unit
IsIntent (some i) =
    (pos 0 ≤ℤ i.confidence) × (i.confidence ≤ℤ pos 1000) × (length i.justification ≤ 500)

signal_round :
    (a : ThreatAssessment)
    → map_some signal_from_json (map_some signal_to_json a.props.authentication_signal)
      ≡ a.props.authentication_signal
unfolding signal_from_json signal_to_json
signal_round a = ground arith

lookalike_round :
    (o : Option LookalikeScore)
    → IsComputed o
    → map_some lookalike_from_json (map_some lookalike_to_json o) ≡ o
unfolding lookalike_from_json lookalike_to_json
lookalike_round none h = refl
lookalike_round (some s) h = ap some (sym h)

pub intent_round :
    (o : Option IntentClassification)
    → IsIntent o
    → intent_of_json (map_some intent_to_json o) ≡ ok o
unfolding intent_from_json intent_to_json intent_classification
intent_round none h = refl
intent_round (some i) h = ground (arith, take_of_le 500 i.justification h.2)

-- For an assessment whose score and intent are as their constructors make them, writing it to JSON
-- and reading it back keeps every property, and takes the lock from the decision: the assessment is
-- the same exactly up to a lock that disagrees with its decision.
pub from_json-to_json :
    (a : ThreatAssessment)
    → IsComputed a.props.lookalike_score
    → IsIntent a.props.intent_classification
    → from_json (to_json a)
      ≡ ok (record a { assessment_locked = is_locked a.props.quarantine_decision })
unfolding from_json to_json from_props decision_to_json decision_from_json
from_json-to_json a c i = rw (intent_round _ i, signal_round a, lookalike_round _ c)
