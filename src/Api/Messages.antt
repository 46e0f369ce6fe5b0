-- ===== src/Api/Messages.antt =====
-- src/api/v1/controllers/messages.controller.ts. Rows are read with the columns that the controller
-- takes from them; JSON columns are JSON values. `null` and undefined are both `none`.
use volunteer_training.Prelude.{
  ℕ, zero, Bool, Option, none, some, List, [], ◌∷◌, map, String, ◌===◌, string_eq, any_of, lookup,
  insert, if◌then◌else◌,
}
use volunteer_training.Prelude.Int.{ℤ, pos, min_ℤ}
use volunteer_training.Prelude.Integer.{parse_int}
use volunteer_training.Prelude.Result.{Result, ok, throws}
use volunteer_training.Prelude.Json.{
  Json, Items, nil, cons, str, num, arr, obj, field, end, get_field, is_truthy,
}

-- `parseInt(text) || default`
abbrev pub number_or : ℤ → Option ℤ → ℤ
number_or d none = d
number_or d (some (pos zero)) = d
number_or d (some n) = n

unfoldable pub parsed_limit : String → ℤ
unfolding parse_int min_ℤ
parsed_limit limit = min_ℤ (number_or (pos 50) (parse_int limit)) (pos 100)

unfoldable pub parsed_offset : String → ℤ
unfolding parse_int
parsed_offset offset = number_or (pos 0) (parse_int offset)

pub record MessageLabel : Type 0 where
  pub category : String
  pub confidence_score : ℕ
  pub source_tier : String

pub record MessageRow : Type 0 where
  pub id : String
  pub message_id : String
  pub mailbox_id : String
  pub platform : String
  pub normalized_envelope : Option Json
  pub message_labels : List MessageLabel
  pub created_at : Option String

pub record PriorityRow : Type 0 where
  pub message_id : String
  pub priority_score : Option ℕ
  pub components : Option Json

pub record ThreatRow : Type 0 where
  pub message_id : String
  pub quarantine_decision : Option String

-- The maps of a page: a later row of a message replaces an earlier one.
unfoldable pub priority_map :
    List PriorityRow → List (String × PriorityRow) → List (String × PriorityRow)
priority_map [] m = m
priority_map (p ∷ ps) m = priority_map ps (insert p.message_id p m)

unfoldable pub threat_map : List ThreatRow → List (String × ThreatRow) → List (String × ThreatRow)
threat_map [] m = m
threat_map (t ∷ ts) m = threat_map ts (insert t.message_id t m)

pub record ScoreComponentDto : Type 0 where
  pub name : Option Json
  pub value : Json
  pub weight : Json
  pub contribution : Json

pub record MessageResponseDto : Type 0 where
  pub id : String
  pub message_id : String
  pub mailbox_id : String
  pub platform : String
  pub from : Json
  pub subject : Json
  pub thread_id : Option Json
  pub received_at : Json
  pub labels : List MessageLabel
  pub priority_score : ℕ
  pub priority_components : List ScoreComponentDto
  pub phishing_status : String
  pub quarantine_decision : String
  pub needs_reply : Bool
  pub created_at : String

-- `a || b`
abbrev pub json_or : Option Json → Json → Json
json_or none d = d
json_or (some v) d = if is_truthy v then v else d

abbrev pub component_dto : Json → ScoreComponentDto
component_dto c = record {
  name = get_field "name" c;
  value = json_or (get_field "value" c) (num "0");
  weight = json_or (get_field "weight" c) (num "0");
  contribution = json_or (get_field "contribution" c) (num "0");
}

abbrev pub components_of : Items → List ScoreComponentDto
components_of nil = []
components_of (cons c cs) = component_dto c ∷ components_of cs

-- `Array.isArray(components) ? components.map(…) : []`
abbrev pub component_dtos : Option Json → List ScoreComponentDto
component_dtos (some (arr items)) = components_of items
component_dtos _ = []

abbrev pub number_or_zero : Option ℕ → ℕ
number_or_zero none = 0
number_or_zero (some n) = n

abbrev pub score_of : Option PriorityRow → ℕ
score_of (some p) = number_or_zero p.priority_score
score_of none = 0

abbrev pub components_column : Option PriorityRow → Option Json
components_column none = none
components_column (some p) = p.components

-- A decision that is missing or empty is `none`.
abbrev pub text_or_none : Option String → String
text_or_none none = "none"
text_or_none (some s) = if s === "" then "none" else s

abbrev pub decision_of : Option ThreatRow → String
decision_of none = "none"
decision_of (some t) = text_or_none t.quarantine_decision

abbrev pub envelope_field : String → Option Json → Option Json
envelope_field key none = none
envelope_field key (some e) = get_field key e

abbrev pub text_or : Option String → String → String
text_or none d = d
text_or (some s) d = if s === "" then d else s

-- The response for a message, at the time `now`.
unfoldable pub to_message_dto :
    MessageRow
    → List (String × PriorityRow)
    → List (String × ThreatRow)
    → String
    → MessageResponseDto
to_message_dto m priorities threats now =
    let priority = lookup m.message_id priorities in
    let threat = lookup m.message_id threats in
    let e = m.normalized_envelope in
    record {
      id = m.id;
      message_id = m.message_id;
      mailbox_id = m.mailbox_id;
      platform = m.platform;
      from = json_or (envelope_field "from" e) (str "");
      subject = json_or (envelope_field "subject" e) (str "");
      thread_id = envelope_field "threadRef" e;
      received_at = json_or (envelope_field "received_at" e) (str now);
      labels = m.message_labels;
      priority_score = score_of priority;
      priority_components = component_dtos (components_column priority);
      phishing_status = decision_of threat;
      quarantine_decision = decision_of threat;
      needs_reply = any_of (λ (l : MessageLabel). l.category === "NEEDS_REPLY") m.message_labels;
      created_at = text_or m.created_at now;
    }

-- The page of messages that the database returns, with the rows that it returns for them.
unfoldable pub list_messages :
    List MessageRow → List PriorityRow → List ThreatRow → String → List MessageResponseDto
unfolding to_message_dto priority_map threat_map
list_messages messages priorities threats now =
    map (λ m. to_message_dto m (priority_map priorities []) (threat_map threats []) now) messages

-- A map with the row that was found, if there is one, under the id of the message.
abbrev pub one_entry {ℓ} : {A : Type ℓ} → String → Option A → List (String × A)
one_entry key none = []
one_entry key (some row) = insert key row []

abbrev pub message_not_found : String
message_not_found = "Message not found"

-- `findUnique` has found the message or not, and its priority and its assessment.
unfoldable pub get_message_details :
    Option MessageRow → Option PriorityRow → Option ThreatRow → String → Result MessageResponseDto
get_message_details none priority threat now = throws message_not_found
get_message_details (some m) priority threat now =
    ok (to_message_dto m (one_entry m.message_id priority) (one_entry m.message_id threat) now)

pub record CorrectionSubmitDto : Type 0 where
  pub context : String
  pub original_verdict : String
  pub corrected_verdict : String

-- The verdict that `submitCorrection` stores.
unfoldable pub submitted_verdict : CorrectionSubmitDto → Json
submitted_verdict c = obj (
    field "context" (str c.context) (
      field "original_verdict" (str c.original_verdict)
        (field "corrected_verdict" (str c.corrected_verdict) end)))

pub record CorrectionColumns : Type 0 where
  pub tenant_id : String
  pub message_id : String
  pub verdict : Json
  pub source : String
  pub state : String

-- `create` is that of the table of corrections, which returns the id of the new row or throws.
unfoldable pub submit_correction :
    {Db : Type 0}
    → (CorrectionColumns → Db → Result (String × Db))
    → String
    → String
    → Option MessageRow
    → CorrectionSubmitDto
    → Db
    → Result (String × Db)
unfolding submitted_verdict
submit_correction create tenant message none c d = throws message_not_found
submit_correction create tenant message (some m) c d =
    create
      (record {
        tenant_id = tenant;
        message_id = message;
        verdict = submitted_verdict c;
        source = "explicit_user_action";
        state = "confirmed";
      })
      d
