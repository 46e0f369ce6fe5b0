-- ===== src/Classify/Signals.antt =====
-- src/classification/domain/value-objects/rule-signal-set.ts
use volunteer_training.Prelude.{
  ℕ, ◌+◌, Bool, true, false, ◌&&◌, Option, none, some, String, leb, if◌then◌else◌, ◌===◌, string_eq,
}
use volunteer_training.Prelude.Json.{Json, bool, str, get_field, is_set}

pub record RuleSignalSet : Type 0 where
  pub sender_is_brand : Bool
  pub list_unsubscribe_present : Bool
  pub precedence_bulk : Bool
  pub auto_submitted_present : Bool
  pub list_id_present : Bool
  pub dmarc_pass : Bool
  pub dkim_pass : Bool
  pub spf_pass : Bool
  pub method_cancel_detected : Bool
  pub ecommerce_markup_detected : Bool
  pub thread_state_automated : Bool

abbrev pub field_of : String → Option Json → Option Json
field_of k none = none
field_of k (some v) = get_field k v

abbrev pub is_text : String → Option Json → Bool
is_text s (some (str t)) = t === s
is_text s _ = false

abbrev pub is_false : Option Json → Bool
is_false (some (bool false)) = true
is_false _ = false

-- `envelope.headers?.[name]` and `envelope.authResults?.name`
abbrev pub header : String → Json → Option Json
header name envelope = field_of name (field_of "headers" (some envelope))

abbrev pub auth_result : String → Json → Option Json
auth_result name envelope = field_of name (field_of "authResults" (some envelope))

-- Signals that are only tested are the results of the tests.
unfoldable pub evaluate_signals : Json → RuleSignalSet
unfolding get_field
evaluate_signals envelope = record {
  sender_is_brand = false;
  list_unsubscribe_present = is_set (header "list-unsubscribe" envelope);
  precedence_bulk = is_text "bulk" (header "precedence" envelope);
  auto_submitted_present = is_set (header "auto-submitted" envelope);
  list_id_present = is_set (header "list-id" envelope);
  dmarc_pass = is_text "pass" (auth_result "dmarc" envelope);
  dkim_pass = is_text "pass" (auth_result "dkim" envelope);
  spf_pass = is_text "pass" (auth_result "spf" envelope);
  method_cancel_detected =
      is_set (get_field "hasCalendarPart" envelope)
      && is_text "CANCEL" (get_field "methodType" envelope);
  ecommerce_markup_detected = is_set (get_field "hasEcommerceMarkup" envelope);
  thread_state_automated = is_false (get_field "lastSenderIsMailboxOwner" envelope);
}

abbrev pub one_if : Bool → ℕ
one_if b = if b then 1 else 0

-- At least two of four signs of automation.
unfoldable pub has_strong_automation_signals : RuleSignalSet → Bool
has_strong_automation_signals s = leb 2 (
    one_if s.list_unsubscribe_present
    + one_if s.precedence_bulk
    + one_if s.auto_submitted_present
    + one_if s.list_id_present)
