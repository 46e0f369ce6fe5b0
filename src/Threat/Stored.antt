-- ===== src/Threat/Stored.antt =====
-- What the repository of assessments reads back of what it has saved.
use volunteer_training.Prelude.{ℕ, ◌≡◌, refl, sym, ap, ◌∙◌, true, false, Option, none, some, String}
use mathlib.Core.Path.{subst}
use volunteer_training.Prelude.Result.{Result, ok, throws, >>=-ok}
use volunteer_training.Prelude.Store.{Store}
use volunteer_training.Threat.Values.{
  AuthenticationSignal, LookalikeScore, IntentClassification, QuarantineDecision, no_action, policy,
  is_locked,
}
use volunteer_training.Threat.Assessment.{ThreatAssessment, auth_check, from_props}
use volunteer_training.Threat.Json.{
  SignalJson, LookalikeJson, IntentJson, map_some, signal_to_json, signal_from_json,
  lookalike_to_json, lookalike_from_json, intent_to_json, intent_of_json, decision_from_json,
  from_json,
}
use volunteer_training.Threat.RoundTrip.{IsComputed, IsIntent, intent_round}
use volunteer_training.Threat.Repository.{
  AssessmentKey, AssessmentRow, same_assessment_iff, assessment_key_eq, assessment_key, created_row,
  or_kept, updated_row, json_of_row, found, find_by_message_id, update_row, save_over, save,
}

-- A value that is there is read as it is.
abbrev pub IsCarried {ℓ} : {A : Type ℓ} → Option A → Option A → Type ℓ
IsCarried none back = Unit
IsCarried (some v) back = back ≡ some v

signal-IsCarried :
    (o : Option AuthenticationSignal) (old : Option SignalJson)
    → IsCarried o (map_some signal_from_json (or_kept (map_some signal_to_json o) old))
unfolding signal_to_json signal_from_json
signal-IsCarried none old = tt
signal-IsCarried (some s) old = refl

lookalike-IsCarried :
    (o : Option LookalikeScore) (old : Option LookalikeJson)
    → IsComputed o
    → IsCarried o (map_some lookalike_from_json (or_kept (map_some lookalike_to_json o) old))
unfolding lookalike_to_json lookalike_from_json
lookalike-IsCarried none old h = tt
lookalike-IsCarried (some s) old h = ap some (sym h)

intent-IsCarried :
    (o : Option IntentClassification) (old : Option IntentJson)
    (before : Option IntentClassification)
    → IsIntent o
    → intent_of_json old ≡ ok before
    → (i : Option IntentClassification) × ((intent_of_json (or_kept (map_some intent_to_json o) old)
          ≡ ok i)
        × IsCarried o i)
intent-IsCarried none old before h e = (before, (e, tt))
intent-IsCarried (some i) old before h e = (some i, (intent_round (some i) h, refl))

or_kept-none {ℓ} : {A : Type ℓ} (o : Option A) → o ≡ or_kept o none
or_kept-none none = refl
or_kept-none (some v) = refl

-- The columns of `r` are those of `a`, or of an earlier row where `a` has none.
abbrev pub IsWrittenOver :
    ThreatAssessment
    → Option SignalJson
    → Option LookalikeJson
    → Option IntentJson
    → AssessmentRow
    → Type 0
IsWrittenOver a signal lookalike intent r =
    (r.auth_signal ≡ or_kept (map_some signal_to_json a.props.authentication_signal) signal)
    × (r.lookalike_score ≡ or_kept (map_some lookalike_to_json a.props.lookalike_score) lookalike)
    × (r.intent_classification
        ≡ or_kept (map_some intent_to_json a.props.intent_classification) intent)

module _ (no_time : ℕ) where
  -- The decision that is read back, whatever was decided.
  abbrev pub lost : QuarantineDecision
  lost = record { action = no_action; decided_by = policy; decided_at = no_time; reversible = true }

  abbrev pub read_back :
      AssessmentKey → AssessmentRow → Option IntentClassification → ThreatAssessment
  read_back k r i = record {
    props = record {
      tenant_id = k.tenant_id;
      message_id = k.message_id;
      authentication_signal = map_some signal_from_json r.auth_signal;
      lookalike_score = map_some lookalike_from_json r.lookalike_score;
      intent_classification = i;
      quarantine_decision = lost;
      highest_tier_reached = auth_check;
      created_at = r.created_at;
      updated_at = r.updated_at;
    };
    assessment_locked = false;
  }

  found-read_back :
      (k : AssessmentKey) (r : AssessmentRow) (i : Option IntentClassification)
      → intent_of_json r.intent_classification ≡ ok i
      → found no_time k (some r) ≡ ok (some (read_back k r i, r.id))
  unfolding found from_json from_props decision_from_json is_locked
  found-read_back k r i h = rw h refl

  -- The signals of `b` are those of `a`, where it has them.
  abbrev pub HasSignals : ThreatAssessment → ThreatAssessment → Type 0
  HasSignals a b =
      IsCarried a.props.authentication_signal b.props.authentication_signal
      × IsCarried a.props.lookalike_score b.props.lookalike_score
      × IsCarried a.props.intent_classification b.props.intent_classification

  abbrev pub IsReadBack : ThreatAssessment → Result (Option (ThreatAssessment × String)) → Type 0
  IsReadBack a result =
      (b : ThreatAssessment) × ((id : String) × ((result ≡ ok (some (b, id)))
          × HasSignals a b
          × (b.props.quarantine_decision ≡ lost)
          × (b.assessment_locked ≡ false)))

  module _ (table : Store AssessmentKey AssessmentRow) where
    open table use {Db, find, write, find_written}

    written :
        (a : ThreatAssessment) (r : AssessmentRow) (d d' : Db)
        → write (assessment_key a) r d ≡ some d'
        → find (assessment_key a) d' ≡ some r
    written a r d d' w =
        let k = assessment_key a in
        find_written k k r d d' w ∙ rw ((same_assessment_iff k k).1 refl) refl

    row-IsReadBack :
        (a : ThreatAssessment) (r : AssessmentRow) (d d' : Db) (signal : Option SignalJson)
        (lookalike : Option LookalikeJson) (old : Option IntentJson)
        (before : Option IntentClassification)
        → IsComputed a.props.lookalike_score
        → IsIntent a.props.intent_classification
        → intent_of_json old ≡ ok before
        → IsWrittenOver a signal lookalike old r
        → write (assessment_key a) r d ≡ some d'
        → IsReadBack a (find_by_message_id no_time table (assessment_key a) d')
    unfolding find_by_message_id
    row-IsReadBack a r d d' signal lookalike old before computed intent e (s, l, c) w =
        let k = assessment_key a in
        let (i, (j, carried)) =
          intent-IsCarried a.props.intent_classification old before intent e in
        (
          read_back k r i,
          (
            r.id,
            (
              ap (found no_time k) (written a r d d' w)
                  ∙ found-read_back k r i (ap intent_of_json c ∙ j),
              (
                subst (λ x. IsCarried a.props.authentication_signal (map_some signal_from_json x))
                    (sym s) (signal-IsCarried a.props.authentication_signal signal),
                subst (λ x. IsCarried a.props.lookalike_score (map_some lookalike_from_json x))
                    (sym l) (lookalike-IsCarried a.props.lookalike_score lookalike computed),
                carried,
              ),
              refl,
              refl,
            ),
          ),
        )

    -- A save that returns has found a row that can be read, or none.
    readable :
        (made : String) (now : ℕ) (a : ThreatAssessment) (d d' : Db)
        (result : Result (Option (ThreatAssessment × String)))
        → save_over no_time table made now a d result ≡ some d'
        → (x : Option (ThreatAssessment × String)) × (result ≡ ok x)
    readable made now a d d' (ok x) h = (x, refl)
    readable made now a d d' (throws message) h = cc

    -- The rest of a save, on what is found under the key.
    save_over-IsReadBack :
        (made : String) (now : ℕ) (a : ThreatAssessment) (d d' : Db) (o : Option AssessmentRow)
        → IsComputed a.props.lookalike_score
        → IsIntent a.props.intent_classification
        → find (assessment_key a) d ≡ o
        → save_over no_time table made now a d (found no_time (assessment_key a) o) ≡ some d'
        → IsReadBack a (find_by_message_id no_time table (assessment_key a) d')
    unfolding found from_json from_props decision_from_json is_locked
    save_over-IsReadBack made now a d d' none computed intent e h =
        row-IsReadBack a (created_row made now a) d d' none none none none computed intent refl
          (or_kept-none _, or_kept-none _, or_kept-none _) h
    save_over-IsReadBack made now a d d' (some r) computed intent e h =
        let k = assessment_key a in
        let (x, read) = readable made now a d d' (found no_time k (some r)) h in
        let (b, (parsed, _)) =
          >>=-ok (from_json (json_of_row no_time k r)) (λ b. ok (some (b, r.id))) read in
        let (i, (old, _)) =
          >>=-ok (intent_of_json r.intent_classification) (λ i. ok (read_back k r i)) parsed in
        let w : write k (updated_row now a r) d ≡ some d' =
          sym (ap (λ y. update_row no_time table k (updated_row now a) y d) e)
          ∙ sym (ap (save_over no_time table made now a d) (found-read_back k r i old))
          ∙ h in
        row-IsReadBack a (updated_row now a r) d d' r.auth_signal r.lookalike_score
          r.intent_classification i computed intent old (refl, refl, refl) w

    -- An assessment whose score and intent are as their constructors make them is found again, once a
    -- save of it returns, with the signals that it had; but whatever was decided, it is read back with
    -- no decision and is not locked.
    pub find_by_message_id-save_decision :
        (made : String) (now : ℕ) (a : ThreatAssessment) (d d' : Db)
        → IsComputed a.props.lookalike_score
        → IsIntent a.props.intent_classification
        → save no_time table made now a d ≡ some d'
        → IsReadBack a (find_by_message_id no_time table (assessment_key a) d')
    unfolding save find_by_message_id
    find_by_message_id-save_decision made now a d d' computed intent h =
        save_over-IsReadBack made now a d d' (find (assessment_key a) d) computed intent refl h
