-- ===== src/Threat/Assessment.antt =====
-- The aggregate (src/threat-detection/domain/aggregates/threat-assessment.aggregate.ts). A method
-- that throws returns `throws`, and has changed nothing; every `new Date()` of a call reads one `now`.
use volunteer_training.Prelude.{
  ℕ, Bool, true, false, not, ◌&&◌, Option, none, some, String, is_some, if◌then◌else◌,
}
use volunteer_training.Prelude.Int.{pos, leb_ℤ}
use volunteer_training.Prelude.Result.{Result, ok, throws}
use volunteer_training.Threat.Values.{
  AuthenticationSignal, auth_is_high_risk, LookalikeScore, lookalike_is_high_risk,
  IntentClassification, is_no_intent, is_high_confidence, QuarantineDecision, policy, is_policy,
  none_decision, flag_decision, quarantine_decision, is_locked,
}

pub data ThreatTier : Type 0 where
  auth_check lookalike_check intent_llm : ThreatTier

pub record ThreatAssessmentProps : Type 0 where
  pub tenant_id : String
  pub message_id : String
  pub authentication_signal : Option AuthenticationSignal
  pub lookalike_score : Option LookalikeScore
  pub intent_classification : Option IntentClassification
  pub quarantine_decision : QuarantineDecision
  pub highest_tier_reached : ThreatTier
  pub created_at : ℕ
  pub updated_at : ℕ

pub record ThreatAssessment : Type 0 where
  pub props : ThreatAssessmentProps
  pub assessment_locked : Bool

-- The constructor.
unfoldable pub from_props : ThreatAssessmentProps → ThreatAssessment
from_props p = record { props = p; assessment_locked = is_locked p.quarantine_decision }

unfoldable pub create : String → String → ℕ → ThreatAssessment
unfolding from_props
create tenant message now = from_props (record {
  tenant_id = tenant;
  message_id = message;
  authentication_signal = none;
  lookalike_score = none;
  intent_classification = none;
  quarantine_decision = none_decision now;
  highest_tier_reached = auth_check;
  created_at = now;
  updated_at = now;
})

abbrev locked_message : String
locked_message = "Assessment is locked and cannot be modified"

-- `this.authenticationSignal?.isHighRisk()`
abbrev pub auth_risk : Option AuthenticationSignal → Bool
auth_risk none = false
auth_risk (some s) = auth_is_high_risk s

-- What the three checks do at a verdict: a locking quarantine by policy, or a flag.
abbrev lock_quarantine : ℕ → ThreatAssessmentProps → ThreatAssessment
lock_quarantine now p = record {
  props = record p { quarantine_decision = quarantine_decision policy now };
  assessment_locked = true;
}

unfoldable pub assess_authentication :
    ThreatAssessment → AuthenticationSignal → ℕ → Result ThreatAssessment
assess_authentication a signal now =
    let p = record (a.props) {
      authentication_signal = some signal;
      highest_tier_reached = auth_check;
      updated_at = now;
    } in
    if a.assessment_locked
    then throws locked_message
    else if auth_is_high_risk signal
    then ok (lock_quarantine now p)
    else ok (record a { props = p })

unfoldable pub assess_lookalike : ThreatAssessment → LookalikeScore → ℕ → Result ThreatAssessment
assess_lookalike a score now =
    let p = record (a.props) {
      lookalike_score = some score;
      highest_tier_reached = lookalike_check;
      updated_at = now;
    } in
    if a.assessment_locked
    then throws locked_message
    else if lookalike_is_high_risk score && auth_risk p.authentication_signal
    then ok (lock_quarantine now p)
    else if lookalike_is_high_risk score
    then ok (record a { props = record p { quarantine_decision = flag_decision now } })
    else ok (record a { props = p })

unfoldable pub assess_intent_classification :
    ThreatAssessment → IntentClassification → ℕ → Result ThreatAssessment
assess_intent_classification a intent now =
    let p = record (a.props) {
      intent_classification = some intent;
      highest_tier_reached = intent_llm;
      updated_at = now;
    } in
    if a.assessment_locked
    then throws locked_message
    else if is_high_confidence intent
    then ok (lock_quarantine now p)
    else if not (is_no_intent intent.intent) && leb_ℤ (pos 500) intent.confidence
    then ok (record a { props = record p { quarantine_decision = flag_decision now } })
    else ok (record a { props = p })

unfoldable pub override_quarantine :
    ThreatAssessment → QuarantineDecision → ℕ → Result ThreatAssessment
override_quarantine a decision now =
    if not a.assessment_locked
    then throws "Can only override a locked quarantine"
    else if is_policy decision.decided_by
    then throws "Overrides must be from admin or user, not policy"
    else ok (record {
      props = record (a.props) { quarantine_decision = decision; updated_at = now };
      assessment_locked = false;
    })

unfoldable pub is_assessment_complete : ThreatAssessment → Bool
is_assessment_complete a =
    is_some a.props.authentication_signal
    && is_some a.props.lookalike_score
    && is_some a.props.intent_classification
