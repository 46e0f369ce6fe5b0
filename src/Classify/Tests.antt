-- ===== src/Classify/Tests.antt =====
-- The examples of the classification.
use volunteer_training.Prelude.{ℕ, ◌≡◌, refl, Bool, true, false, none, some, List, [], ◌∷◌, take}
use volunteer_training.Prelude.Json.{Json, str, bool, obj, end, field, get_field}
use volunteer_training.Prelude.Text.{utf16}
use volunteer_training.Prelude.Result.{ok}
use volunteer_training.Ingestion.Envelope.{MessageEnvelope, gmail}
use volunteer_training.Classify.Signals.{evaluate_signals}
use volunteer_training.Classify.Labels.{
  personal, shopping, cheap_llm, rule, new_classification, needs_reply_label,
}
use volunteer_training.Classify.Service.{label, labelled}
use volunteer_training.Classify.Outcome.{labels_of}
use volunteer_training.Classify.Headers.{envelope_json, silent, evaluate_signals-envelope_json}

-- A newsletter with markup: the model is not asked.
abbrev newsletter : Json
newsletter = obj (
    field "subject" (str "Sale") (
      field "headers" (obj (field "list-unsubscribe" (str "<mailto:u@example.com>") end))
        (field "hasEcommerceMarkup" (bool true) end)))

answers : List ℕ → Bool
answers text = true

always : (text : List ℕ) → answers text ≡ true
unfolding answers
always text = refl

only_shopping : labels_of (evaluate_signals newsletter) ≡ label shopping 85 rule ∷ []
unfolding evaluate_signals get_field
only_shopping = refl

-- Mail of a list, as the ingestion stores it.
abbrev bulk : MessageEnvelope
bulk = record {
  message_id = "m";
  from = "list@example.com";
  to = [];
  platform = gmail;
  sent_at = "2026-07-08T00:00:00Z";
  cc = [];
  bcc = [];
  subject = "News";
  has_calendar_part = false;
  attachment_summaries = [];
  headers = record {
    thread_ref = none;
    calendar_method_type = none;
    list_unsubscribe = some "<mailto:u@example.com>";
    list_id = some "list";
    precedence = some "bulk";
    auto_submitted = some "auto-generated";
    spf_pass = some true;
    dkim_pass = some true;
    dmarc_pass = some true;
  };
}

evaluate_signals-envelope_json_example :
    (evaluate_signals (envelope_json bulk) ≡ silent)
    × (labelled answers "t" "m" (envelope_json bulk)
        ≡ ok (record (new_classification "t" "m") {
          labels = needs_reply_label 60 "1.0.0" ∷ label personal 75 cheap_llm ∷ [];
          is_finalized = true;
        }))
evaluate_signals-envelope_json_example =
    evaluate_signals-envelope_json answers "t" "m" bulk (always (take 500 (utf16 "News")))
