-- ===== src/Ingestion/Envelope.antt =====
-- src/mailbox-ingestion/domain/value-objects/message-envelope.ts. An optional field is `none` where
-- it is undefined.
use volunteer_training.Prelude.{
  ℕ, Bool, false, not, ◌||◌, Option, none, some, List, [], String, truthy, is_some, if◌then◌else◌,
}
use volunteer_training.Prelude.Result.{Result, ok, throws}

pub data Platform : Type 0 where
  gmail outlook : Platform

pub data CalendarMethodType : Type 0 where
  request reply cancel refresh counter declinecounter : CalendarMethodType

pub record AttachmentSummary : Type 0 where
  pub filename : String
  pub mime_type : String
  pub size_bytes : Option ℕ

-- The fields of the headers, which are passed on as they are.
pub record Headers : Type 0 where
  pub thread_ref : Option String
  pub calendar_method_type : Option CalendarMethodType
  pub list_unsubscribe : Option String
  pub list_id : Option String
  pub precedence : Option String
  pub auto_submitted : Option String
  pub spf_pass : Option Bool
  pub dkim_pass : Option Bool
  pub dmarc_pass : Option Bool

-- `Partial<MessageEnvelope>`
pub record EnvelopeData : Type 0 where
  pub message_id : Option String
  pub from : Option String
  pub to : Option (List String)
  pub platform : Option Platform
  pub sent_at : Option String
  pub cc : Option (List String)
  pub bcc : Option (List String)
  pub subject : Option String
  pub has_calendar_part : Option Bool
  pub attachment_summaries : Option (List AttachmentSummary)
  pub headers : Headers

pub record MessageEnvelope : Type 0 where
  pub message_id : String
  pub from : String
  pub to : List String
  pub platform : Platform
  pub sent_at : String
  pub cc : List String
  pub bcc : List String
  pub subject : String
  pub has_calendar_part : Bool
  pub attachment_summaries : List AttachmentSummary
  pub headers : Headers

abbrev pub or_default {ℓ} : {A : Type ℓ} → A → Option A → A
or_default d none = d
or_default d (some x) = x

abbrev pub is_missing_text : Option String → Bool
is_missing_text s = not (truthy s)

-- The guard on the required fields; a list is never falsy.
abbrev pub is_incomplete : EnvelopeData → Bool
is_incomplete d =
    is_missing_text d.message_id
    || is_missing_text d.from
    || not (is_some d.to)
    || not (is_some d.platform)
    || is_missing_text d.sent_at

abbrev pub missing_message : String
missing_message = "MessageEnvelope missing required fields"

-- The object that is returned, from fields that are there.
abbrev pub envelope_of :
    Option String
    → Option String
    → Option (List String)
    → Option Platform
    → Option String
    → EnvelopeData
    → Result MessageEnvelope
envelope_of (some message_id) (some from) (some to) (some platform) (some sent_at) d = ok (record {
  message_id = message_id;
  from = from;
  to = to;
  platform = platform;
  sent_at = sent_at;
  cc = or_default [] d.cc;
  bcc = or_default [] d.bcc;
  subject = or_default "" d.subject;
  has_calendar_part = or_default false d.has_calendar_part;
  attachment_summaries = or_default [] d.attachment_summaries;
  headers = d.headers;
})
envelope_of _ _ _ _ _ d = throws missing_message

unfoldable pub create_envelope : EnvelopeData → Result MessageEnvelope
create_envelope d =
    if is_incomplete d
    then throws missing_message
    else envelope_of d.message_id d.from d.to d.platform d.sent_at d

-- An envelope as data that has every field.
abbrev pub as_data : MessageEnvelope → EnvelopeData
as_data e = record {
  message_id = some e.message_id;
  from = some e.from;
  to = some e.to;
  platform = some e.platform;
  sent_at = some e.sent_at;
  cc = some e.cc;
  bcc = some e.bcc;
  subject = some e.subject;
  has_calendar_part = some e.has_calendar_part;
  attachment_summaries = some e.attachment_summaries;
  headers = e.headers;
}

unfoldable pub validate : MessageEnvelope → Result MessageEnvelope
unfolding create_envelope
validate e = create_envelope (as_data e)
