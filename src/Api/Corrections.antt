-- ===== src/Api/Corrections.antt =====
-- The pages of messages, the details of one, and what a correction that was submitted reads as.
use volunteer_training.Prelude.{
  ◌≡◌, ◌∙◌, refl, arith, true, Option, none, some, List, [], lookup, lookup-insert, String,
  string_eq,
}
use volunteer_training.Prelude.Int.{ℤ, pos, min_ℤ, leb_ℤ}
use volunteer_training.Prelude.Integer.{parse_int}
use volunteer_training.Prelude.Json.{Json, get_field}
use volunteer_training.Api.Messages.{
  number_or, parsed_limit, CorrectionSubmitDto, submitted_verdict, MessageRow, PriorityRow,
  ThreatRow, priority_map, threat_map, to_message_dto, one_entry, get_message_details,
}
use volunteer_training.Prelude.Result.{ok}

-- The two verdicts of a snapshot that `VerdictSnapshot.fromDb` reads from a stored verdict.
abbrev pub original_read : Json → Option Json
original_read v = get_field "originalVerdict" v

abbrev pub corrected_read : Json → Option Json
corrected_read v = get_field "correctedVerdict" v

-- A correction that was submitted reads, once it is loaded, as one without an original and without a
-- corrected verdict, so the two are the same, whatever the user corrected.
pub submitted_verdict_lem :
    (c : CorrectionSubmitDto)
    → (original_read (submitted_verdict c) ≡ none)
      × (corrected_read (submitted_verdict c) ≡ original_read (submitted_verdict c))
unfolding submitted_verdict get_field
submitted_verdict_lem c = (refl, refl)

number_or_lem : (o : Option ℤ) → leb_ℤ (min_ℤ (number_or (pos 50) o) (pos 100)) (pos 100) ≡ true
unfolding min_ℤ
number_or_lem o = ground arith

-- A page never asks for more than a hundred messages.
pub parsed_limit_lem : (limit : String) → leb_ℤ (parsed_limit limit) (pos 100) ≡ true
unfolding parsed_limit
parsed_limit_lem limit = number_or_lem (parse_int limit)

lookup-one_entry {ℓ} : {A : Type ℓ} (key : String) (o : Option A) → lookup key (one_entry key o) ≡ o
unfolding lookup
lookup-one_entry key none = refl
lookup-one_entry key (some row) =
    lookup-insert key key row [] ∙ rw ((string_eq.same_iff key key).1 refl) refl

-- The details of a message are what a page shows of it, where the rows that are found for the message
-- are those that the page has for it.
pub get_message_details-to_message_dto :
    (m : MessageRow) (priorities : List PriorityRow) (threats : List ThreatRow) (now : String)
    → get_message_details
        (some m)
        (lookup m.message_id (priority_map priorities []))
        (lookup m.message_id (threat_map threats []))
        now
      ≡ ok (to_message_dto m (priority_map priorities []) (threat_map threats []) now)
unfolding get_message_details to_message_dto
get_message_details-to_message_dto m priorities threats now =
    rw
      (
        lookup-one_entry m.message_id (lookup m.message_id (priority_map priorities [])),
        lookup-one_entry m.message_id (lookup m.message_id (threat_map threats [])),
      )
      refl
