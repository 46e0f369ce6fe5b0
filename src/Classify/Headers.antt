-- ===== src/Classify/Headers.antt =====
-- The envelopes that the ingestion stores, as the classification reads them.
use volunteer_training.Prelude.{
  ℕ, take, ◌≡◌, refl, ap, ◌∙◌, arith, Bool, true, false, Option, none, some, List, [], ◌∷◌, String,
  ◌===◌, string_eq, any_of, ◌&&◌,
}
use volunteer_training.Prelude.Json.{
  is_set, Json, Items, Fields, bool, num, str, arr, obj, nil, cons, end, field, get_field,
  lookup_field,
}
use volunteer_training.Prelude.Text.{decimal}
use volunteer_training.Ingestion.Envelope.{
  MessageEnvelope, Platform, gmail, outlook, CalendarMethodType, request, reply, cancel, refresh,
  counter, declinecounter, AttachmentSummary,
}
use volunteer_training.Prelude.Text.{utf16}
use volunteer_training.Prelude.Result.{ok}
use volunteer_training.Classify.Labels.{personal, cheap_llm, new_classification, needs_reply_label}
use volunteer_training.Classify.Service.{label, subject_text, labelled}
use volunteer_training.Classify.Outcome.{labels_of, labelled_lem}
use volunteer_training.Classify.Signals.{
  is_text, is_false, field_of, RuleSignalSet, evaluate_signals,
}

abbrev pub platform_text : Platform → String
platform_text gmail = "gmail"
platform_text outlook = "outlook"

abbrev pub method_text : CalendarMethodType → String
method_text request = "REQUEST"
method_text reply = "REPLY"
method_text cancel = "CANCEL"
method_text refresh = "REFRESH"
method_text counter = "COUNTER"
method_text declinecounter = "DECLINECOUNTER"

abbrev pub method_json : CalendarMethodType → Json
method_json c = str (method_text c)

abbrev pub texts : List String → Items
texts [] = nil
texts (s ∷ ss) = cons (str s) (texts ss)

abbrev pub opt {ℓ} : {A : Type ℓ} → (A → Json) → Option A → Option Json
opt f none = none
opt f (some a) = some (f a)

-- A field that is undefined is left out.
abbrev pub fields_of : List (String × Option Json) → Fields
fields_of [] = end
fields_of ((k, none) ∷ fs) = fields_of fs
fields_of ((k, some v) ∷ fs) = field k v (fields_of fs)

abbrev pub attachment_json : AttachmentSummary → Json
unfolding decimal
attachment_json a = obj (
    fields_of (
      ("filename", some (str a.filename))
      ∷ ("mimeType", some (str a.mime_type))
      ∷ ("sizeBytes", opt (λ n. num (decimal n)) a.size_bytes)
      ∷ []))

abbrev pub attachments : List AttachmentSummary → Items
attachments [] = nil
attachments (a ∷ as') = cons (attachment_json a) (attachments as')

-- The fields of `MessageEnvelope` under their names, from `from` on, and all of them.
abbrev pub fields_after_platform : MessageEnvelope → List (String × Option Json)
fields_after_platform e =
    let h = e.headers in
    ("from", some (str e.from))
    ∷ ("to", some (arr (texts e.to)))
    ∷ ("cc", some (arr (texts e.cc)))
    ∷ ("bcc", some (arr (texts e.bcc)))
    ∷ ("subject", some (str e.subject))
    ∷ ("sentAt", some (str e.sent_at))
    ∷ ("hasCalendarPart", some (bool e.has_calendar_part))
    ∷ ("calendarMethodType", opt method_json h.calendar_method_type)
    ∷ ("listUnsubscribe", opt str h.list_unsubscribe)
    ∷ ("listId", opt str h.list_id)
    ∷ ("precedence", opt str h.precedence)
    ∷ ("autoSubmitted", opt str h.auto_submitted)
    ∷ ("spfPass", opt bool h.spf_pass)
    ∷ ("dkimPass", opt bool h.dkim_pass)
    ∷ ("dmarcPass", opt bool h.dmarc_pass)
    ∷ ("attachmentSummaries", some (arr (attachments e.attachment_summaries)))
    ∷ []

abbrev pub envelope_fields : MessageEnvelope → List (String × Option Json)
envelope_fields e =
    let h = e.headers in
    ("messageId", some (str e.message_id))
    ∷ ("threadRef", opt str h.thread_ref)
    ∷ ("platform", some (str (platform_text e.platform)))
    ∷ fields_after_platform e

abbrev pub envelope_json : MessageEnvelope → Json
envelope_json e = obj (fields_of (envelope_fields e))

lookup_field-fields_of :
    (k : String) (fs : List (String × Option Json))
    → any_of (λ f. f.0 === k) fs ≡ false
    → lookup_field k (fields_of fs) ≡ none
lookup_field-fields_of k [] h = refl
lookup_field-fields_of k ((j, none) ∷ fs) h = lookup_field-fields_of k fs (ground (arith, h))
lookup_field-fields_of k ((j, some v) ∷ fs) h =
    let other : (j === k) ≡ false = ground (arith, h) in
    rw other (lookup_field-fields_of k fs (ground (arith, h)))

abbrev pub silent : RuleSignalSet
silent = record {
  sender_is_brand = false;
  list_unsubscribe_present = false;
  precedence_bulk = false;
  auto_submitted_present = false;
  list_id_present = false;
  dmarc_pass = false;
  dkim_pass = false;
  spf_pass = false;
  method_cancel_detected = false;
  ecommerce_markup_detected = false;
  thread_state_automated = false;
}

-- The signals as a function of the fields that they read.
abbrev signals_from :
    Option Json
    → Option Json
    → Option Json
    → Option Json
    → Option Json
    → Option Json
    → RuleSignalSet
signals_from headers auth part method markup owner = record {
  sender_is_brand = false;
  list_unsubscribe_present = is_set (field_of "list-unsubscribe" headers);
  precedence_bulk = is_text "bulk" (field_of "precedence" headers);
  auto_submitted_present = is_set (field_of "auto-submitted" headers);
  list_id_present = is_set (field_of "list-id" headers);
  dmarc_pass = is_text "pass" (field_of "dmarc" auth);
  dkim_pass = is_text "pass" (field_of "dkim" auth);
  spf_pass = is_text "pass" (field_of "spf" auth);
  method_cancel_detected = is_set part && is_text "CANCEL" method;
  ecommerce_markup_detected = is_set markup;
  thread_state_automated = is_false owner;
}

silent_part : (b : Bool) → record silent { method_cancel_detected = b && false } ≡ silent
silent_part true = refl
silent_part false = refl

evaluate_signals-obj :
    (fs : Fields)
    → evaluate_signals (obj fs)
      ≡ signals_from
          (lookup_field "headers" fs)
          (lookup_field "authResults" fs)
          (lookup_field "hasCalendarPart" fs)
          (lookup_field "methodType" fs)
          (lookup_field "hasEcommerceMarkup" fs)
          (lookup_field "lastSenderIsMailboxOwner" fs)
unfolding evaluate_signals get_field
evaluate_signals-obj fs = refl

missing :
    (k : String) (e : MessageEnvelope)
    → any_of (λ f. f.0 === k) (envelope_fields e) ≡ false
    → lookup_field k (fields_of (envelope_fields e)) ≡ none
missing k e h = lookup_field-fields_of k (envelope_fields e) h

no_signal : (e : MessageEnvelope) → evaluate_signals (envelope_json e) ≡ silent
no_signal e =
    let fs = fields_of (envelope_fields e) in
    let headers = missing "headers" e refl in
    let auth = missing "authResults" e refl in
    let method = missing "methodType" e refl in
    let markup = missing "hasEcommerceMarkup" e refl in
    let owner = missing "lastSenderIsMailboxOwner" e refl in
    evaluate_signals-obj fs
    ∙ (λ i.
        signals_from (headers i) (auth i) (lookup_field "hasCalendarPart" fs) (method i) (markup i)
          (owner i))
    ∙ silent_part (is_set (lookup_field "hasCalendarPart" fs))

lookup_field-skipped :
    (k j : String) (o : Option Json) (fs : List (String × Option Json))
    → (j === k) ≡ false
    → lookup_field k (fields_of ((j, o) ∷ fs)) ≡ lookup_field k (fields_of fs)
lookup_field-skipped k j none fs h = refl
lookup_field-skipped k j (some v) fs h = rw h refl

subject_of :
    (e : MessageEnvelope) → subject_text (get_field "subject" (envelope_json e)) ≡ ok e.subject
unfolding get_field
subject_of e = ap subject_text (
    lookup_field-skipped "subject" "threadRef" (opt str e.headers.thread_ref)
      (("platform", some (str (platform_text e.platform))) ∷ fields_after_platform e) refl)

-- No signal is read from any envelope that the ingestion makes, whatever its headers are: the
-- evaluator looks under `headers` and `authResults`, and the envelope has its fields elsewhere. So no
-- such message counts as automated, and with a model that answers each is labelled as one that needs a
-- reply.
pub evaluate_signals-envelope_json :
    (responds : List ℕ → Bool) (tenant message : String) (e : MessageEnvelope)
    → responds (take 500 (utf16 e.subject)) ≡ true
    → (evaluate_signals (envelope_json e) ≡ silent)
      × (labelled responds tenant message (envelope_json e)
          ≡ ok (record (new_classification tenant message) {
            labels = needs_reply_label 60 "1.0.0" ∷ label personal 75 cheap_llm ∷ [];
            is_finalized = true;
          }))
evaluate_signals-envelope_json responds tenant message e answers =
    let none_read = no_signal e in
    (
      none_read,
      labelled_lem responds tenant message (envelope_json e) e.subject (subject_of e) answers
          ∙ ap
              (λ s. ok (record (new_classification tenant message) {
                labels = labels_of s;
                is_finalized = true;
              }))
              none_read,
    )
