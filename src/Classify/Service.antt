-- ===== src/Classify/Service.antt =====
-- src/classification: application/classification.service.ts, anthropic-classifier.adapter.ts, and the
-- save of message-classification.repository.ts. The client of the language model and the database are
-- not in the repository; where they throw, the call of the service throws.
use volunteer_training.Prelude.{
  ℕ, ◌≡◌, ◌↔◌, arith, nat_beq, nat_beq_iff, Bool, true, false, not, ◌&&◌, ◌||◌, Option, none, some,
  List, [], ◌∷◌, String, Eq, string_eq, ◌===◌, ltb, take, any_of, length, if◌then◌else◌,
}
use volunteer_training.Prelude.Json.{is_truthy, Json, str, get_field}
use volunteer_training.Prelude.Text.{utf16}
use volunteer_training.Prelude.Result.{Result, ok, throws, ◌>>=◌}
use volunteer_training.Prelude.Store.{Store}
use volunteer_training.Classify.Signals.{
  RuleSignalSet, evaluate_signals, has_strong_automation_signals,
}
use volunteer_training.Classify.Labels.{
  Category, personal, work, shopping, category_number, SourceTier, rule, cheap_llm, LabelAssignment,
  MessageClassification, new_classification, same_category, assign_label,
  assign_needs_reply_if_valid, finalize,
}

pub record LabelKey : Type 0 where
  pub message_id : String
  pub category : ℕ

abbrev pub same_label : LabelKey → LabelKey → Bool
same_label a b = a.message_id === b.message_id && nat_beq a.category b.category

pub same_label_iff : (a b : LabelKey) → (same_label a b ≡ true) ↔ (a ≡ b)
same_label_iff a b =
    ground (arith, string_eq.same_iff a.message_id b.message_id, nat_beq_iff a.category b.category)

instance abbrev pub label_key_eq : Eq LabelKey
label_key_eq = record { same = same_label; same_iff = same_label_iff }

-- The columns beside the key.
pub record LabelRow : Type 0 where
  pub tenant_id : String
  pub confidence_score : ℕ
  pub source_tier : SourceTier
  pub classifier_version : String

abbrev pub label_key : String → LabelAssignment → LabelKey
label_key message l = record { message_id = message; category = category_number l.category }

-- The row after an upsert: an update leaves the tenant as it is.
abbrev pub label_row : String → LabelAssignment → Option LabelRow → LabelRow
label_row tenant l none = record {
  tenant_id = tenant;
  confidence_score = l.confidence;
  source_tier = l.source_tier;
  classifier_version = l.classifier_version;
}
label_row tenant l (some old) = record old {
  confidence_score = l.confidence;
  source_tier = l.source_tier;
  classifier_version = l.classifier_version;
}

-- A category and its confidence.
abbrev pub Guess : Type 0
Guess = Category × ℕ

abbrev pub label : Category → ℕ → SourceTier → LabelAssignment
label category confidence tier = record {
  category = category;
  confidence = confidence;
  source_tier = tier;
  classifier_version = "1.0.0";
}

abbrev pub database_message : String
database_message = "database"

-- A guess is assigned where its category has no label yet.
unfoldable pub assign_guesses : List Guess → MessageClassification → Result MessageClassification
unfolding assign_label
assign_guesses [] c = ok c
assign_guesses ((category, confidence) ∷ guesses) c =
    (if any_of (λ l. same_category l.category category) c.labels
      then ok c
      else assign_label c (label category confidence cheap_llm))
    >>= assign_guesses guesses

-- `subject || ''`; the adapter's `substring` throws on what is no text.
abbrev pub subject_text : Option Json → Result String
subject_text none = ok ""
subject_text (some (str s)) = ok s
subject_text (some v) = if is_truthy v then throws "text.substring is not a function" else ok ""

abbrev pub assign_if : Bool → LabelAssignment → MessageClassification → Result MessageClassification
unfolding assign_label
assign_if b l c = if b then assign_label c l else ok c

-- The labels by rules.
unfoldable pub assign_by_rules :
    RuleSignalSet → MessageClassification → Result MessageClassification
unfolding assign_needs_reply_if_valid has_strong_automation_signals
assign_by_rules s c =
    assign_if s.method_cancel_detected (label shopping 95 rule) c
    >>= assign_if s.ecommerce_markup_detected (label shopping 85 rule)
    >>= λ c.
        if not (has_strong_automation_signals s) then assign_needs_reply_if_valid c s 60 else ok c

-- The model's client: whether the call for a text (its first 500 units) returns.
module _ (responds : List ℕ → Bool) where
  abbrev pub model_message : String
  model_message = "model"

  unfoldable pub classify_with_haiku : String → Result (List Guess)
  unfolding utf16
  classify_with_haiku text =
      if responds (take 500 (utf16 text)) then ok ((personal, 75) ∷ []) else throws model_message

  unfoldable pub classify_with_sonnet : String → Result (List Guess)
  unfolding utf16
  classify_with_sonnet text =
      if responds (take 500 (utf16 text)) then ok ((work, 85) ∷ []) else throws model_message

  -- The model is asked where there is no label or one is below 0.8.
  unfoldable pub ask_model : Option Json → MessageClassification → Result MessageClassification
  unfolding classify_with_haiku assign_guesses
  ask_model subject c =
      if nat_beq (length c.labels) 0 || any_of (λ l. ltb l.confidence 80) c.labels
      then (subject_text subject >>= classify_with_haiku >>= λ guesses. assign_guesses guesses c)
      else ok c

  unfoldable pub labelled : String → String → Json → Result MessageClassification
  unfolding assign_by_rules ask_model finalize evaluate_signals get_field
  labelled tenant message envelope =
      assign_by_rules (evaluate_signals envelope) (new_classification tenant message)
      >>= ask_model (get_field "subject" envelope)
      >>= λ c. ok (finalize c)

  module _ (table : Store LabelKey LabelRow) where
    open table use {Db, find, write}

    -- One upsert after the other, until one throws; `true` if none did.
    unfoldable pub save_labels : String → String → List LabelAssignment → Db → Bool × Db
    save_labels tenant message [] d = (true, d)
    save_labels tenant message (l ∷ ls) d =
        let k = label_key message l in
        elim (write k (label_row tenant l (find k d)) d) [
          | none ↦ (false, d)
          | some d' ↦ save_labels tenant message ls d'
        ]

    abbrev pub save_result : MessageClassification → Bool × Db → Result MessageClassification × Db
    save_result c (true, d) = (ok c, d)
    save_result c (false, d) = (throws database_message, d)

    abbrev pub save_if :
        String → Result MessageClassification → Db → Result MessageClassification × Db
    unfolding save_labels
    save_if tenant (throws message) d = (throws message, d)
    save_if tenant (ok c) d = save_result c (save_labels tenant c.message_id c.labels d)

    unfoldable pub classify_message :
        String → String → Json → Db → Result MessageClassification × Db
    unfolding labelled save_if
    classify_message tenant message envelope d = save_if tenant (labelled tenant message envelope) d
