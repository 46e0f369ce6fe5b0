-- ===== src/Threat/Json.antt =====
-- `toJSON` and `fromJSON` of the threat aggregate and its value objects. A JSON object is a record
-- of optional fields, absent or null being `none`; a date is written as its instant.
use volunteer_training.Prelude.{ℕ, Bool, true, false, Option, none, some, List, [], String}
use volunteer_training.Prelude.Int.{ℤ, pos}
use volunteer_training.Prelude.Result.{Result, ok, ◌>>=◌}
use volunteer_training.Threat.Values.{
  AuthCheckResult, none_found, Alignment, unaligned, AuthenticationSignal, LookalikeScore,
  lookalike_score, PhishingIntent, no_intent, IntentClassification, intent_classification,
  QuarantineAction, no_action, DecisionMaker, policy, QuarantineDecision,
}
use volunteer_training.Threat.Assessment.{ThreatTier, ThreatAssessment, from_props}

-- `value ?? fallback`
abbrev pub or_else {ℓ} : {A : Type ℓ} → Option A → A → A
or_else none d = d
or_else (some a) d = a

pub record SignalJson : Type 0 where
  pub spf : Option AuthCheckResult
  pub dkim : Option AuthCheckResult
  pub dmarc : Option AuthCheckResult
  pub alignment_result : Option Alignment
  pub display_name_brand_match : Option Bool

unfoldable pub signal_to_json : AuthenticationSignal → SignalJson
signal_to_json s = record {
  spf = some s.spf;
  dkim = some s.dkim;
  dmarc = some s.dmarc;
  alignment_result = some s.alignment_result;
  display_name_brand_match = some s.display_name_brand_match;
}

unfoldable pub signal_from_json : SignalJson → AuthenticationSignal
signal_from_json j = record {
  spf = or_else j.spf none_found;
  dkim = or_else j.dkim none_found;
  dmarc = or_else j.dmarc none_found;
  alignment_result = or_else j.alignment_result unaligned;
  display_name_brand_match = or_else j.display_name_brand_match false;
}

pub record LookalikeJson : Type 0 where
  pub candidate_domain : Option String
  pub matched_brand : Option String
  pub edit_distance : Option ℤ
  pub homoglyph_match : Option Bool
  pub prior_correspondence_with_domain : Option Bool
  pub score : Option ℕ

unfoldable pub lookalike_to_json : LookalikeScore → LookalikeJson
lookalike_to_json s = record {
  candidate_domain = some s.props.candidate_domain;
  matched_brand = s.props.matched_brand;
  edit_distance = some s.props.edit_distance;
  homoglyph_match = some s.props.homoglyph_match;
  prior_correspondence_with_domain = some s.props.prior_correspondence_with_domain;
  score = some s.score;
}

-- The stored score is not read: the constructor computes it again.
unfoldable pub lookalike_from_json : LookalikeJson → LookalikeScore
lookalike_from_json j = lookalike_score (record {
  candidate_domain = or_else j.candidate_domain "";
  matched_brand = j.matched_brand;
  edit_distance = or_else j.edit_distance (pos 999);
  homoglyph_match = or_else j.homoglyph_match false;
  prior_correspondence_with_domain = or_else j.prior_correspondence_with_domain false;
})

pub record IntentJson : Type 0 where
  pub intent : Option PhishingIntent
  pub confidence : Option ℤ
  pub justification : Option (List ℕ)

unfoldable pub intent_to_json : IntentClassification → IntentJson
intent_to_json i = record {
  intent = some i.intent;
  confidence = some i.confidence;
  justification = some i.justification;
}

unfoldable pub intent_from_json : IntentJson → Result IntentClassification
intent_from_json j =
    intent_classification (or_else j.intent no_intent) (or_else j.confidence (pos 0))
      (or_else j.justification [])

pub record DecisionJson : Type 0 where
  pub action : Option QuarantineAction
  pub decided_by : Option DecisionMaker
  pub decided_at : ℕ
  pub reversible : Option Bool

unfoldable pub decision_to_json : QuarantineDecision → DecisionJson
decision_to_json d = record {
  action = some d.action;
  decided_by = some d.decided_by;
  decided_at = d.decided_at;
  reversible = some d.reversible;
}

unfoldable pub decision_from_json : DecisionJson → QuarantineDecision
decision_from_json j = record {
  action = or_else j.action no_action;
  decided_by = or_else j.decided_by policy;
  decided_at = j.decided_at;
  reversible = or_else j.reversible true;
}

pub record AssessmentJson : Type 0 where
  pub tenant_id : String
  pub message_id : String
  pub authentication_signal : Option SignalJson
  pub lookalike_score : Option LookalikeJson
  pub intent_classification : Option IntentJson
  pub quarantine_decision : DecisionJson
  pub highest_tier_reached : ThreatTier
  pub assessment_locked : Bool
  pub created_at : ℕ
  pub updated_at : ℕ

-- `x?.toJSON() ?? null`
abbrev pub map_some {ℓ κ} : {A : Type ℓ} {B : Type κ} → (A → B) → Option A → Option B
map_some f none = none
map_some f (some a) = some (f a)

unfoldable pub to_json : ThreatAssessment → AssessmentJson
to_json a = record {
  tenant_id = a.props.tenant_id;
  message_id = a.props.message_id;
  authentication_signal = map_some signal_to_json a.props.authentication_signal;
  lookalike_score = map_some lookalike_to_json a.props.lookalike_score;
  intent_classification = map_some intent_to_json a.props.intent_classification;
  quarantine_decision = decision_to_json a.props.quarantine_decision;
  highest_tier_reached = a.props.highest_tier_reached;
  assessment_locked = a.assessment_locked;
  created_at = a.props.created_at;
  updated_at = a.props.updated_at;
}

abbrev pub intent_of_json : Option IntentJson → Result (Option IntentClassification)
intent_of_json none = ok none
intent_of_json (some j) = do i ← intent_from_json j; ok (some i)

-- The stored lock is not read: the constructor takes it from the decision.
unfoldable pub from_json : AssessmentJson → Result ThreatAssessment
from_json j = do
  i ← intent_of_json j.intent_classification
  ok (
      from_props (record {
        tenant_id = j.tenant_id;
        message_id = j.message_id;
        authentication_signal = map_some signal_from_json j.authentication_signal;
        lookalike_score = map_some lookalike_from_json j.lookalike_score;
        intent_classification = i;
        quarantine_decision = decision_from_json j.quarantine_decision;
        highest_tier_reached = j.highest_tier_reached;
        created_at = j.created_at;
        updated_at = j.updated_at;
      }))
