-- ===== src/Threat/Repository.antt =====
-- src/threat-detection/infrastructure/repositories/threat-assessment.repository.ts. The id of a new row
-- comes with it. A throw, also of `fromJSON` on a row, is `none` in a save.
use volunteer_training.Prelude.{
  ℕ, ◌≡◌, ◌↔◌, Bool, true, false, ◌&&◌, arith, Option, none, some, String, string_eq, Eq, ◌===◌,
}
use volunteer_training.Prelude.Result.{Result, ok, throws, ◌>>=◌}
use volunteer_training.Prelude.Store.{Store}
use volunteer_training.Threat.Values.{QuarantineAction, is_locked}
use volunteer_training.Threat.Assessment.{ThreatAssessment, auth_check}
use volunteer_training.Threat.Json.{
  SignalJson, LookalikeJson, IntentJson, DecisionJson, AssessmentJson, map_some, signal_to_json,
  lookalike_to_json, intent_to_json, from_json,
}

pub record AssessmentKey : Type 0 where
  pub tenant_id : String
  pub message_id : String

abbrev pub same_assessment : AssessmentKey → AssessmentKey → Bool
same_assessment a b = a.tenant_id === b.tenant_id && a.message_id === b.message_id

pub same_assessment_iff : (a b : AssessmentKey) → (same_assessment a b ≡ true) ↔ (a ≡ b)
same_assessment_iff a b = ground (
  arith,
  string_eq.same_iff a.tenant_id b.tenant_id,
  string_eq.same_iff a.message_id b.message_id,
)

instance abbrev pub assessment_key_eq : Eq AssessmentKey
assessment_key_eq = record { same = same_assessment; same_iff = same_assessment_iff }

pub record AssessmentRow : Type 0 where
  pub id : String
  pub auth_signal : Option SignalJson
  pub lookalike_score : Option LookalikeJson
  pub intent_classification : Option IntentJson
  pub quarantine_decision : QuarantineAction
  pub quarantine_locked : Bool
  pub created_at : ℕ
  pub updated_at : ℕ

abbrev pub assessment_key : ThreatAssessment → AssessmentKey
assessment_key a = record { tenant_id = a.props.tenant_id; message_id = a.props.message_id }

abbrev pub created_row : String → ℕ → ThreatAssessment → AssessmentRow
created_row made now a = record {
  id = made;
  auth_signal = map_some signal_to_json a.props.authentication_signal;
  lookalike_score = map_some lookalike_to_json a.props.lookalike_score;
  intent_classification = map_some intent_to_json a.props.intent_classification;
  quarantine_decision = a.props.quarantine_decision.action;
  quarantine_locked = is_locked a.props.quarantine_decision;
  created_at = now;
  updated_at = now;
}

-- A column that is undefined in an update keeps its value.
abbrev pub or_kept {ℓ} : {A : Type ℓ} → Option A → Option A → Option A
or_kept none old = old
or_kept (some v) old = some v

abbrev pub updated_row : ℕ → ThreatAssessment → AssessmentRow → AssessmentRow
updated_row now a r = record {
  id = r.id;
  auth_signal = or_kept (map_some signal_to_json a.props.authentication_signal) r.auth_signal;
  lookalike_score = or_kept (map_some lookalike_to_json a.props.lookalike_score) r.lookalike_score;
  intent_classification =
      or_kept (map_some intent_to_json a.props.intent_classification) r.intent_classification;
  quarantine_decision = a.props.quarantine_decision.action;
  quarantine_locked = is_locked a.props.quarantine_decision;
  created_at = r.created_at;
  updated_at = now;
}

-- `no_time` stands for the time of `new Date(undefined)`, an invalid date.
module _ (no_time : ℕ) where
  -- What the fields of a decision are when they are read from a string: it has none of them.
  abbrev pub fields_of_text : QuarantineAction → DecisionJson
  fields_of_text column = record {
    action = none;
    decided_by = none;
    decided_at = no_time;
    reversible = none;
  }

  -- The object that `fromJSON` is given; it has no lock, which is not read.
  abbrev pub json_of_row : AssessmentKey → AssessmentRow → AssessmentJson
  json_of_row k r = record {
    tenant_id = k.tenant_id;
    message_id = k.message_id;
    authentication_signal = r.auth_signal;
    lookalike_score = r.lookalike_score;
    intent_classification = r.intent_classification;
    quarantine_decision = fields_of_text r.quarantine_decision;
    highest_tier_reached = auth_check;
    assessment_locked = false;
    created_at = r.created_at;
    updated_at = r.updated_at;
  }

  unfoldable pub found :
      AssessmentKey → Option AssessmentRow → Result (Option (ThreatAssessment × String))
  found k none = ok none
  found k (some r) = from_json (json_of_row k r) >>= λ a. ok (some (a, r.id))

  module _ (table : Store AssessmentKey AssessmentRow) where
    open table use {Db, find, write}

    unfoldable pub find_by_message_id :
        AssessmentKey → Db → Result (Option (ThreatAssessment × String))
    unfolding found
    find_by_message_id k d = found k (find k d)

    -- An update throws where there is no row.
    abbrev pub update_row :
        AssessmentKey → (AssessmentRow → AssessmentRow) → Option AssessmentRow → Db → Option Db
    update_row k f none d = none
    update_row k f (some r) d = write k (f r) d

    abbrev pub save_over :
        String → ℕ → ThreatAssessment → Db → Result (Option (ThreatAssessment × String)) → Option Db
    save_over made now a d (throws message) = none
    save_over made now a d (ok none) = write (assessment_key a) (created_row made now a) d
    save_over made now a d (ok (some existing)) =
        update_row (assessment_key a) (updated_row now a) (find (assessment_key a) d) d

    unfoldable pub save : String → ℕ → ThreatAssessment → Db → Option Db
    unfolding find_by_message_id
    save made now a d = save_over made now a d (find_by_message_id (assessment_key a) d)
