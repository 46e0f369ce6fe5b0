-- ===== src/Threat/Tests.antt =====
-- Threat detection on concrete messages.
use volunteer_training.Prelude.{
  truthy, ℕ, ◌≡◌, ◌≤◌, ◌≢◌, ◌⊎◌, ◌↔◌, refl, true, false, Option, none, some, [], ◌∷◌, arith,
}
use volunteer_training.Prelude.Int.{pos, ◌≤ℤ◌}
use volunteer_training.Prelude.Result.{ok, ok_or}
use volunteer_training.Prelude.Store.{function_store, update_at}
use volunteer_training.Threat.Repository.{
  AssessmentKey, AssessmentRow, assessment_key_eq, assessment_key, created_row, found,
  find_by_message_id, save,
}
use volunteer_training.Threat.Stored.{IsReadBack, find_by_message_id-save_decision}
use volunteer_training.Threat.Values.{
  pass, fail, none_found, aligned, failed, AuthenticationSignal, LookalikeProps, LookalikeScore,
  lookalike_score, auth_is_high_risk, lookalike_is_high_risk, no_intent, bec, IntentClassification,
  QuarantineDecision, quarantine, no_action, flag, policy, admin, is_locked, is_quarantine,
  none_decision, quarantine_decision, flag_decision, is_high_confidence,
}
use volunteer_training.Threat.Assessment.{
  ThreatAssessment, intent_llm, create, from_props, assess_authentication, assess_lookalike,
  assess_intent_classification,
}
use volunteer_training.Threat.History.{authentication, lookalike, intent, override, apply, run}
use volunteer_training.Threat.Score.{lookalike_is_high_risk_iff}
use volunteer_training.Threat.Locking.{run_locked_by_policy, apply_of_locked}
use volunteer_training.Threat.Policy.{verdict, run-verdict}
use volunteer_training.Threat.Json.{to_json, from_json}
use volunteer_training.Threat.RoundTrip.{from_json-to_json}

abbrev spoofed : AuthenticationSignal
spoofed = record {
  spf = fail;
  dkim = none_found;
  dmarc = fail;
  alignment_result = failed;
  display_name_brand_match = true;
}

abbrev honest : AuthenticationSignal
honest = record {
  spf = pass;
  dkim = pass;
  dmarc = pass;
  alignment_result = aligned;
  display_name_brand_match = false;
}

abbrev typo_domain : LookalikeProps
typo_domain = record {
  candidate_domain = "paypa1.com";
  matched_brand = some "paypal.com";
  edit_distance = pos 1;
  homoglyph_match = true;
  prior_correspondence_with_domain = false;
}

abbrev typo : LookalikeScore
typo = record { props = typo_domain; score = 10 }

abbrev harmless : IntentClassification
harmless = record { intent = no_intent; confidence = pos 0; justification = [] }

abbrev fraud : IntentClassification
fraud = record { intent = bec; confidence = pos 910; justification = 105 ∷ [] }

typo_lem : lookalike_score typo_domain ≡ typo
unfolding lookalike_score
typo_lem = refl

abbrev open_case : ThreatAssessment
open_case = record {
  props = record {
    tenant_id = "t";
    message_id = "m";
    authentication_signal = some honest;
    lookalike_score = some typo;
    intent_classification = some harmless;
    quarantine_decision = record {
      action = flag;
      decided_by = policy;
      decided_at = 2;
      reversible = true;
    };
    highest_tier_reached = intent_llm;
    created_at = 0;
    updated_at = 3;
  };
  assessment_locked = false;
}

checks_lem :
    run (create "t" "m" 0) (authentication honest 1 ∷ lookalike typo 2 ∷ intent harmless 3 ∷ [])
    ≡ open_case
unfolding run apply create from_props assess_authentication assess_lookalike
    assess_intent_classification none_decision flag_decision is_locked auth_is_high_risk
    lookalike_is_high_risk is_high_confidence
checks_lem = refl

run_locked_by_policy_example :
    let a = run (create "t" "m" 0) (authentication spoofed 1 ∷ lookalike typo 2 ∷ []) in
    (is_locked a.props.quarantine_decision ≡ true)
    × (a.props.quarantine_decision.decided_by ≡ policy)
unfolding run apply create from_props assess_authentication assess_lookalike none_decision
    quarantine_decision is_locked auth_is_high_risk
run_locked_by_policy_example =
    run_locked_by_policy "t" "m" 0 (authentication spoofed 1 ∷ lookalike typo 2 ∷ []) refl

abbrev locked_case : ThreatAssessment
locked_case = record {
  props = record (open_case.props) {
    authentication_signal = some spoofed;
    quarantine_decision = record {
      action = quarantine;
      decided_by = policy;
      decided_at = 1;
      reversible = false;
    };
  };
  assessment_locked = true;
}

abbrev release : QuarantineDecision
release = record { action = no_action; decided_by = admin; decided_at = 9; reversible = true }

apply_of_locked_example :
    (ok_or locked_case (apply locked_case (override release 9)) ≡ locked_case)
    ⊎ ((d : QuarantineDecision) × (now : ℕ) × (override release 9 ≡ override d now)
        × (d.decided_by ≢ policy)
        × ((ok_or locked_case (apply locked_case (override release 9))).props.quarantine_decision
            ≡ d)
        × ((ok_or locked_case (apply locked_case (override release 9))).assessment_locked ≡ false))
apply_of_locked_example = apply_of_locked locked_case (override release 9) refl

run-verdict_example :
    let r =
      run (create "t" "m" 0) (authentication honest 1 ∷ lookalike typo 2 ∷ intent fraud 3 ∷ []) in
    (r.props.quarantine_decision.action ≡ verdict honest typo fraud)
    × (r.assessment_locked ≡ is_quarantine (verdict honest typo fraud))
run-verdict_example = run-verdict "t" "m" 0 1 2 3 honest typo fraud

lookalike_is_high_risk_iff_example :
    ((lookalike_score typo_domain).score ≤ 10)
    × ((lookalike_is_high_risk (lookalike_score typo_domain) ≡ true) ↔ (
        (truthy typo_domain.matched_brand ≡ true)
        × (typo_domain.prior_correspondence_with_domain ≡ false)
        × ((typo_domain.homoglyph_match ≡ true)
            ⊎ ((pos 0 ≤ℤ typo_domain.edit_distance) × (typo_domain.edit_distance ≤ℤ pos 1)))))
lookalike_is_high_risk_iff_example = lookalike_is_high_risk_iff typo_domain

from_json-to_json_example :
    from_json (to_json open_case)
    ≡ ok (record open_case { assessment_locked = is_locked open_case.props.quarantine_decision })
unfolding lookalike_score
from_json-to_json_example = from_json-to_json open_case refl (omega arith, omega arith, omega arith)

abbrev no_rows : AssessmentKey → Option AssessmentRow
no_rows k = none

abbrev one_row : AssessmentKey → Option AssessmentRow
one_row = update_at (assessment_key open_case) (created_row "id1" 9 open_case) no_rows

open_case_saved : save 0 function_store "id1" 9 open_case no_rows ≡ some one_row
unfolding save find_by_message_id found
open_case_saved = refl

find_by_message_id-save_decision_example :
    IsReadBack 0 open_case (find_by_message_id 0 function_store (assessment_key open_case) one_row)
unfolding lookalike_score
find_by_message_id-save_decision_example =
    find_by_message_id-save_decision 0 function_store "id1" 9 open_case no_rows one_row refl
      (omega arith, omega arith, omega arith) open_case_saved
