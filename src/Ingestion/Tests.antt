-- ===== src/Ingestion/Tests.antt =====
-- The examples of the ingestion.
use volunteer_training.Prelude.{◌+◌, ◌≡◌, refl, true, false, leb, none, some, List, [], ◌∷◌, String}
use volunteer_training.Prelude.Int.{pos}
use volunteer_training.Prelude.Integer.{parse_int}
use volunteer_training.Prelude.Json.{str}
use volunteer_training.Ingestion.Envelope.{MessageEnvelope, Headers, gmail}
use volunteer_training.Ingestion.Limiter.{new_limiter, rate_key, limit_of, enforce_quota}
use volunteer_training.Ingestion.Quota as Quota
use volunteer_training.Ingestion.Quota.{
  Event, called, fired, calls_since, timers, enforce_quota-run, get_current_usage-timers,
}
use volunteer_training.Ingestion.Database.{
  OutboxEventInput, Tables, Rows, function_tables, run_in_tenant_transaction, create_all,
}
use volunteer_training.Ingestion.Messages.{
  IngestedKey, ingested_key_eq, IngestedMessageData, IngestedMessage, ingested_row, save_new, save,
}
use volunteer_training.Ingestion.Once.{Delivery, Outcome, save_outcome, run, save-run_again}
use volunteer_training.Ingestion.Connections.{connection_key_eq}

abbrev no_headers : Headers
no_headers = record {
  thread_ref = none;
  calendar_method_type = none;
  list_unsubscribe = none;
  list_id = none;
  precedence = none;
  auto_submitted = none;
  spf_pass = some true;
  dkim_pass = none;
  dmarc_pass = none;
}

reads_a_prefix : parse_int " 41x" ≡ some (pos 41)
unfolding parse_int
reads_a_prefix = refl

-- Two calls, the timer of their key, and one more call.
abbrev traffic : List Event
traffic =
    called "gmail" "t" "m" 5
    ∷ called "gmail" "t" "m" 900
    ∷ fired "ratelimit:gmail:t:m"
    ∷ called "gmail" "t" "m" 1
    ∷ []

enforce_quota-run_example :
    (enforce_quota (Quota.run traffic new_limiter) "gmail" "t" "m" 300).1
    ≡ leb (calls_since (rate_key "gmail" "t" "m") traffic 0 + 1) (limit_of "gmail")
enforce_quota-run_example = enforce_quota-run traffic "gmail" "t" "m" 300

abbrev messages : Tables IngestedKey IngestedMessage
messages = function_tables (λ m. m.id)

abbrev empty : Rows IngestedKey IngestedMessage
empty = (λ k. none, [])

abbrev key : String → IngestedKey
key id = record { tenant_id = "t"; platform_message_id = id; platform = "gmail"; mailbox_id = "b" }

abbrev letter_envelope : MessageEnvelope
letter_envelope = record {
  message_id = "m";
  from = "a@example.com";
  to = [];
  platform = gmail;
  sent_at = "2026-07-08T00:00:00Z";
  cc = [];
  bcc = [];
  subject = "";
  has_calendar_part = false;
  attachment_summaries = [];
  headers = no_headers;
}

abbrev delivered : String → IngestedMessageData
delivered id = record {
  key = key id;
  message_id = id;
  mailbox_connection_id = none;
  normalized_envelope = letter_envelope;
  body_ref_id = none;
}

abbrev ingested : List OutboxEventInput
ingested =
    record {
      aggregate_id = "m1";
      aggregate_type = "IngestedMessage";
      event_type = "MessageIngested";
      payload = str "m1";
    }
    ∷ []

save_outcome_example : Outcome messages (delivered "m1") ingested "id1" empty
save_outcome_example = save_outcome messages (delivered "m1") ingested "id1" empty

abbrev after_first : Rows IngestedKey IngestedMessage
unfolding save save_new run_in_tenant_transaction create_all
after_first = (save messages (delivered "m1") ingested "id1" empty).1

first_save :
    save messages (delivered "m1") ingested "id1" empty
    ≡ (some (ingested_row (delivered "m1") "id1"), after_first)
unfolding save save_new run_in_tenant_transaction create_all
first_save = refl

-- The message comes again after another one, with an event that is not written.
abbrev between : List (Delivery messages)
between = (delivered "m2", [], "id2") ∷ []

save-run_again_example :
    save messages (delivered "m1") ingested "id3" (run messages between after_first)
    ≡ (some (ingested_row (delivered "m1") "id1"), run messages between after_first)
save-run_again_example =
    save-run_again messages (delivered "m1") ingested "id1" empty after_first
      (ingested_row (delivered "m1") "id1") first_save between (delivered "m1") refl ingested "id3"
