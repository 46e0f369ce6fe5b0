-- ===== src/Ingestion/Rejection.antt =====
-- When an envelope is refused, and that checking it again changes nothing.
use volunteer_training.Prelude.{
  ◌≡◌, ◌⊎◌, inl, inr, refl, sym, Bool-cases, true, false, Option, none, some, List, [], String,
  arith,
}
use volunteer_training.Prelude.Attempt.{some_of_is_some}
use volunteer_training.Prelude.Result.{ok, throws}
use volunteer_training.Ingestion.Envelope.{
  EnvelopeData, MessageEnvelope, is_incomplete, is_missing_text, or_default, Platform,
  missing_message, create_envelope, as_data, validate,
}

-- What the envelope that is made has of its data.
abbrev pub IsMadeOf : MessageEnvelope → EnvelopeData → Type 0
IsMadeOf e d =
    (some e.message_id ≡ d.message_id)
    × (some e.from ≡ d.from)
    × (some e.to ≡ d.to)
    × (some e.platform ≡ d.platform)
    × (some e.sent_at ≡ d.sent_at)

abbrev Parts : EnvelopeData → Type 0
Parts d =
    ((m : String) × (d.message_id ≡ some m) × (is_missing_text (some m) ≡ false))
    × ((f : String) × (d.from ≡ some f) × (is_missing_text (some f) ≡ false))
    × ((t : List String) × (d.to ≡ some t))
    × ((p : Platform) × (d.platform ≡ some p))
    × ((s : String) × (d.sent_at ≡ some s) × (is_missing_text (some s) ≡ false))

text_there :
    (o : Option String)
    → is_missing_text o ≡ false
    → (s : String) × (o ≡ some s) × (is_missing_text (some s) ≡ false)
text_there none h = cc
text_there (some s) h = (s, refl, h)

parts : (d : EnvelopeData) → is_incomplete d ≡ false → Parts d
parts d h = (
  text_there d.message_id (ground (arith, h)),
  text_there d.from (ground (arith, h)),
  some_of_is_some d.to (ground (arith, h)),
  some_of_is_some d.platform (ground (arith, h)),
  text_there d.sent_at (ground (arith, h)),
)

completed :
    (d : EnvelopeData)
    → is_incomplete d ≡ false
    → Parts d
    → (e : MessageEnvelope) × (is_incomplete d ≡ false)
      × (create_envelope d ≡ ok e)
      × (validate e ≡ ok e)
      × IsMadeOf e d
unfolding create_envelope validate
completed d h ((m, hm, nm), (f, hf, nf), (t, ht), (p, hp), (s, hs, ns)) =
    let e : MessageEnvelope = record {
      message_id = m;
      from = f;
      to = t;
      platform = p;
      sent_at = s;
      cc = or_default [] d.cc;
      bcc = or_default [] d.bcc;
      subject = or_default "" d.subject;
      has_calendar_part = or_default false d.has_calendar_part;
      attachment_summaries = or_default [] d.attachment_summaries;
      headers = d.headers;
    } in
    let again : is_incomplete (as_data e) ≡ false = rw (nm, nf, ns) refl in
    (e, h, rw (h, hm, hf, ht, hp, hs) refl, rw again refl, (sym hm, sym hf, sym ht, sym hp, sym hs))

-- An envelope is refused exactly when its message id, sender or time is missing or empty, or its
-- recipients or platform are missing; an envelope that is made has these of the data and passes the
-- check again as it is.
pub create_envelope_lem :
    (d : EnvelopeData)
    → ((is_incomplete d ≡ true) × (create_envelope d ≡ throws missing_message))
      ⊎ ((e : MessageEnvelope) × (is_incomplete d ≡ false)
          × (create_envelope d ≡ ok e)
          × (validate e ≡ ok e)
          × IsMadeOf e d)
unfolding create_envelope
create_envelope_lem d = elim (Bool-cases (is_incomplete d)) [
  | inl missing ↦ inl (missing, rw missing refl)
  | inr there ↦ inr (completed d there (parts d there))
]
