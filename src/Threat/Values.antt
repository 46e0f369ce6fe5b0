-- ===== src/Threat/Values.antt =====
-- The value objects of threat detection (src/threat-detection/domain/value-objects).
use volunteer_training.Prelude.{
  ℕ, ◌+◌, ◌-◌, truthy, Bool, true, false, not, ◌&&◌, ◌||◌, Option, List, String, leb, ltb, take,
  if◌then◌else◌, string_eq,
}
use volunteer_training.Prelude.Int.{ℤ, pos, pos_part, leb_ℤ}
use volunteer_training.Prelude.Result.{Result, ok, throws}

-- authentication-signal.ts

pub data AuthCheckResult : Type 0 where
  pass fail none_found : AuthCheckResult

pub data Alignment : Type 0 where
  aligned partial failed unaligned : Alignment

pub record AuthenticationSignal : Type 0 where
  pub spf : AuthCheckResult
  pub dkim : AuthCheckResult
  pub dmarc : AuthCheckResult
  pub alignment_result : Alignment
  pub display_name_brand_match : Bool

abbrev pub is_fail : AuthCheckResult → Bool
is_fail fail = true
is_fail _ = false

abbrev pub is_pass : AuthCheckResult → Bool
is_pass pass = true
is_pass _ = false

unfoldable pub auth_is_high_risk : AuthenticationSignal → Bool
auth_is_high_risk s = is_fail s.dmarc || (s.display_name_brand_match && not (is_pass s.dmarc))

-- lookalike-score.ts; scores are counted in tenths

pub record LookalikeProps : Type 0 where
  pub candidate_domain : String
  pub matched_brand : Option String
  pub edit_distance : ℤ
  pub homoglyph_match : Bool
  pub prior_correspondence_with_domain : Bool

pub record LookalikeScore : Type 0 where
  pub props : LookalikeProps
  pub score : ℕ

-- The share of a small edit distance: `Math.max(0.3 - d * 0.1, 0)` for d from 0 to 2.
abbrev pub distance_share : ℤ → ℕ
distance_share d = if leb_ℤ d (pos 2) && leb_ℤ (pos 0) d then 3 - pos_part d else 0

unfoldable pub compute_score : LookalikeProps → ℕ
compute_score p =
    let brand : ℕ = if truthy p.matched_brand then 6 else 0 in
    let near = brand + distance_share p.edit_distance in
    let glyph = near + (if p.homoglyph_match then 2 else 0) in
    let known = if p.prior_correspondence_with_domain then glyph - 5 else glyph in
    if leb known 10 then known else 10

-- The constructor.
unfoldable pub lookalike_score : LookalikeProps → LookalikeScore
unfolding compute_score
lookalike_score p = record { props = p; score = compute_score p }

unfoldable pub lookalike_is_high_risk : LookalikeScore → Bool
lookalike_is_high_risk s = ltb 7 s.score

-- intent-classification.ts; a confidence is counted in thousandths

pub data PhishingIntent : Type 0 where
  credential_harvesting bec malware_delivery no_intent : PhishingIntent

pub record IntentClassification : Type 0 where
  pub intent : PhishingIntent
  pub confidence : ℤ
  pub justification : List ℕ  -- UTF-16 code units

-- The constructor.
unfoldable pub intent_classification : PhishingIntent → ℤ → List ℕ → Result IntentClassification
intent_classification i c j =
    if not (leb_ℤ (pos 0) c) || not (leb_ℤ c (pos 1000))
    then throws "Confidence must be between 0 and 1"
    else ok (record { intent = i; confidence = c; justification = take 500 j })

abbrev pub is_no_intent : PhishingIntent → Bool
is_no_intent no_intent = true
is_no_intent _ = false

unfoldable pub is_high_confidence : IntentClassification → Bool
is_high_confidence i = leb_ℤ (pos 800) i.confidence && not (is_no_intent i.intent)

-- quarantine-decision.ts

pub data QuarantineAction : Type 0 where
  flag quarantine no_action : QuarantineAction

pub data DecisionMaker : Type 0 where
  policy admin user : DecisionMaker

pub record QuarantineDecision : Type 0 where
  pub action : QuarantineAction
  pub decided_by : DecisionMaker
  pub decided_at : ℕ
  pub reversible : Bool

abbrev pub is_policy : DecisionMaker → Bool
is_policy policy = true
is_policy _ = false

abbrev pub is_quarantine : QuarantineAction → Bool
is_quarantine quarantine = true
is_quarantine _ = false

unfoldable pub none_decision : ℕ → QuarantineDecision
none_decision now = record {
  action = no_action;
  decided_by = policy;
  decided_at = now;
  reversible = true;
}

unfoldable pub flag_decision : ℕ → QuarantineDecision
flag_decision now = record {
  action = flag;
  decided_by = policy;
  decided_at = now;
  reversible = true;
}

unfoldable pub quarantine_decision : DecisionMaker → ℕ → QuarantineDecision
quarantine_decision by now = record {
  action = quarantine;
  decided_by = by;
  decided_at = now;
  reversible = not (is_policy by);
}

unfoldable pub is_locked : QuarantineDecision → Bool
is_locked d = is_quarantine d.action && not d.reversible
