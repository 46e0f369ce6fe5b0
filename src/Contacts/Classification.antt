-- ===== src/Contacts/Classification.antt =====
-- src/contact-graph/domain/value-objects/contact-classification.ts. Weights are counted in tenths, and
-- a confidence is the fraction that the source divides out.
use volunteer_training.Prelude.{
  ℕ, ◌+◌, ◌*◌, Bool, true, false, not, ◌&&◌, ◌||◌, List, [], ◌∷◌, String, ltb, nat_beq,
  if◌then◌else◌,
}
use volunteer_training.Prelude.Text.{utf16}

pub data ContactClassificationType : Type 0 where
  personal automated unknown : ContactClassificationType

-- `signalType`
pub data SignalType : Type 0 where
  list_unsubscribe_header precedence_bulk auto_submitted list_id : SignalType
  no_reply_local_part contacts_api_match bidirectional_history : SignalType
  display_name_heuristic : SignalType

pub record AutomatedSenderSignal : Type 0 where
  pub signal_type : SignalType
  pub present : Bool
  pub weight : ℕ

abbrev pub signal : SignalType → ℕ → Bool → AutomatedSenderSignal
signal t w p = record { signal_type = t; present = p; weight = w }

abbrev pub from_list_unsubscribe_header : Bool → AutomatedSenderSignal
from_list_unsubscribe_header = signal list_unsubscribe_header 4

abbrev pub from_precedence_bulk : Bool → AutomatedSenderSignal
from_precedence_bulk = signal precedence_bulk 4

abbrev pub from_auto_submitted : Bool → AutomatedSenderSignal
from_auto_submitted = signal auto_submitted 3

abbrev pub from_list_id : Bool → AutomatedSenderSignal
from_list_id = signal list_id 3

abbrev pub from_contacts_api_match : Bool → AutomatedSenderSignal
from_contacts_api_match = signal contacts_api_match 4

abbrev pub from_bidirectional_history : Bool → AutomatedSenderSignal
from_bidirectional_history = signal bidirectional_history 4

abbrev pub from_display_name_heuristic : Bool → AutomatedSenderSignal
from_display_name_heuristic = signal display_name_heuristic 1

abbrev pub starts_with : List ℕ → List ℕ → Bool
starts_with [] cs = true
starts_with (p ∷ ps) [] = false
starts_with (p ∷ ps) (c ∷ cs) = nat_beq p c && starts_with ps cs

-- A `.` of a regular expression matches no end of a line.
abbrev pub is_line_end : ℕ → Bool
is_line_end c = nat_beq c 10 || nat_beq c 13 || nat_beq c 0x2028 || nat_beq c 0x2029

abbrev pub has_in_line : List ℕ → List ℕ → Bool
has_in_line part [] = starts_with part []
has_in_line part (c ∷ cs) =
    starts_with part (c ∷ cs) || (not (is_line_end c) && has_in_line part cs)

-- The regular expression `^(noreply|no-reply|notifications?|.*@no-reply)@`
unfoldable pub is_noreply : String → Bool
unfolding utf16
is_noreply address =
    let cs = utf16 address in
    starts_with (utf16 "noreply@") cs
    || starts_with (utf16 "no-reply@") cs
    || starts_with (utf16 "notification@") cs
    || starts_with (utf16 "notifications@") cs
    || has_in_line (utf16 "@no-reply@") cs

unfoldable pub from_from_address_pattern : String → AutomatedSenderSignal
unfolding is_noreply
from_from_address_pattern address = signal no_reply_local_part 2 (is_noreply address)

-- A confidence: `part` of `whole`.
pub record Fraction : Type 0 where
  pub part : ℕ
  pub whole : ℕ

pub record ContactClassification : Type 0 where
  pub classification : ContactClassificationType
  pub confidence : Fraction
  pub contributing_signals : List AutomatedSenderSignal

-- `Math.min(1, Math.max(0, confidence))`, for a confidence that is not negative.
abbrev pub clamp : Fraction → Fraction
clamp q = if ltb q.whole q.part then record { part = 1; whole = 1 } else q

-- `ContactClassification.unknown`
abbrev pub unknown_contact : ContactClassification
unknown_contact = record {
  classification = unknown;
  confidence = record { part = 0; whole = 1 };
  contributing_signals = [];
}

abbrev pub is_personal_type : SignalType → Bool
is_personal_type contacts_api_match = true
is_personal_type bidirectional_history = true
is_personal_type _ = false

-- What a signal adds to `personalScore`.
abbrev pub personal_weight : AutomatedSenderSignal → ℕ
personal_weight s =
    if is_personal_type s.signal_type
    then if s.present then s.weight else 0
    else if s.present
    then 0
    else s.weight

-- The loop that adds up `personalScore`, and the one that adds up `totalWeight`.
unfoldable pub personal_score : List AutomatedSenderSignal → ℕ
personal_score [] = 0
personal_score (s ∷ signals) = personal_weight s + personal_score signals

unfoldable pub total_weight : List AutomatedSenderSignal → ℕ
total_weight [] = 0
total_weight (s ∷ signals) = s.weight + total_weight signals

abbrev pub quotient : ℕ → ℕ → Fraction
quotient p t = if ltb 0 t then record { part = p; whole = t } else record { part = 0; whole = 1 }

-- `confidence > 0.5`
abbrev pub exceeds_half : Fraction → Bool
exceeds_half q = ltb q.whole (2 * q.part)

unfoldable pub from_signals : List AutomatedSenderSignal → ContactClassification
unfolding personal_score total_weight
from_signals signals =
    let confidence = quotient (personal_score signals) (total_weight signals) in
    record {
      classification = if exceeds_half confidence then personal else automated;
      confidence = clamp confidence;
      contributing_signals = signals;
    }
