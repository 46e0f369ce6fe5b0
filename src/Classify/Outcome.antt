-- ===== src/Classify/Outcome.antt =====
-- Which labels a message gets.
use volunteer_training.Prelude.{
  ℕ, ◌+◌, ◌≡◌, refl, ap, ◌∙◌, Bool, true, false, not, ◌&&◌, ◌||◌, Option, List, [], ◌∷◌, ◌++◌,
  String, leb, take, if◌then◌else◌,
}
use volunteer_training.Prelude.Json.{Json, get_field}
use volunteer_training.Prelude.Text.{utf16}
use volunteer_training.Prelude.Result.{Result, ok, ◌>>=◌}
use volunteer_training.Classify.Signals.{
  RuleSignalSet, evaluate_signals, has_strong_automation_signals, one_if,
}
use volunteer_training.Classify.Labels.{
  personal, shopping, rule, cheap_llm, LabelAssignment, MessageClassification, new_classification,
  upsert_label, needs_reply_label, assign_label, assign_needs_reply_if_valid, finalize,
}
use volunteer_training.Classify.Service.{
  label, classify_with_haiku, assign_guesses, subject_text, assign_if, ask_model, assign_by_rules,
  labelled,
}

-- A message that no header of the three marks as automated.
abbrev pub is_by_hand : RuleSignalSet → Bool
is_by_hand s =
    not s.list_unsubscribe_present && not s.precedence_bulk && not s.auto_submitted_present

abbrev pub shopping_labels : Bool → Bool → List LabelAssignment
shopping_labels cancel markup =
    if markup
    then label shopping 85 rule ∷ []
    else if cancel
    then label shopping 95 rule ∷ []
    else []

abbrev pub reply_labels : Bool → List LabelAssignment
reply_labels by_hand = if by_hand then needs_reply_label 60 "1.0.0" ∷ [] else []

abbrev pub model_labels : Bool → List LabelAssignment
model_labels asked = if asked then label personal 75 cheap_llm ∷ [] else []

abbrev pub is_asked : RuleSignalSet → Bool
is_asked s = is_by_hand s || not (s.method_cancel_detected || s.ecommerce_markup_detected)

-- The labels in their order.
abbrev pub labels_of : RuleSignalSet → List LabelAssignment
labels_of s =
    shopping_labels s.method_cancel_detected s.ecommerce_markup_detected
    ++ (reply_labels (is_by_hand s) ++ model_labels (is_asked s))

abbrev with_labels : String → String → List LabelAssignment → MessageClassification
with_labels tenant message ls = record (new_classification tenant message) { labels = ls }

shopping_lem :
    (t m : String) (cancel markup : Bool)
    → (assign_if cancel (label shopping 95 rule) (new_classification t m)
        >>= assign_if markup (label shopping 85 rule))
      ≡ ok (with_labels t m (shopping_labels cancel markup))
unfolding assign_label upsert_label
shopping_lem t m true true = refl
shopping_lem t m true false = refl
shopping_lem t m false true = refl
shopping_lem t m false false = refl

either_way : (b : Bool) (y : Result MessageClassification) → (if b then y else y) ≡ y
either_way true y = refl
either_way false y = refl

-- Two signs of automation are at least one header of the three.
redundant :
    (a b c d : Bool) (x y : Result MessageClassification)
    → (let by_hand = if not a && not b && not c then x else y in
        if not (leb 2 (one_if a + one_if b + one_if c + one_if d)) then by_hand else y)
      ≡ (if not a && not b && not c then x else y)
redundant false false false false x y = refl
redundant false false false true x y = refl
redundant true b c d x y = either_way (not (leb 2 (1 + one_if b + one_if c + one_if d))) y
redundant false true c d x y = either_way (not (leb 2 (0 + 1 + one_if c + one_if d))) y
redundant false false true d x y = either_way (not (leb 2 (0 + 0 + 1 + one_if d))) y

with_reply :
    (t m : String) (cancel markup by_hand : Bool)
    → (if by_hand
        then ok (
            with_labels t m
              (upsert_label (needs_reply_label 60 "1.0.0") (shopping_labels cancel markup)))
        else ok (with_labels t m (shopping_labels cancel markup)))
      ≡ ok (with_labels t m (shopping_labels cancel markup ++ reply_labels by_hand))
unfolding upsert_label
with_reply t m true true true = refl
with_reply t m true true false = refl
with_reply t m true false true = refl
with_reply t m true false false = refl
with_reply t m false true true = refl
with_reply t m false true false = refl
with_reply t m false false true = refl
with_reply t m false false false = refl

-- What the rules do about a reply.
abbrev reply_rule : RuleSignalSet → MessageClassification → Result MessageClassification
unfolding has_strong_automation_signals assign_needs_reply_if_valid
reply_rule s c =
    if not (has_strong_automation_signals s) then assign_needs_reply_if_valid c s 60 else ok c

rules_lem :
    (t m : String) (s : RuleSignalSet)
    → assign_by_rules s (new_classification t m)
      ≡ ok (
          with_labels t m (
            shopping_labels s.method_cancel_detected s.ecommerce_markup_detected
            ++ reply_labels (is_by_hand s)))
unfolding assign_by_rules assign_needs_reply_if_valid has_strong_automation_signals
rules_lem t m s =
    let cancel = s.method_cancel_detected in
    let markup = s.ecommerce_markup_detected in
    let ls = shopping_labels cancel markup in
    ap (λ r. r >>= reply_rule s) (shopping_lem t m cancel markup)
    ∙ redundant s.list_unsubscribe_present s.precedence_bulk s.auto_submitted_present
        s.list_id_present (ok (with_labels t m (upsert_label (needs_reply_label 60 "1.0.0") ls)))
        (ok (with_labels t m ls))
    ∙ with_reply t m cancel markup (is_by_hand s)

module _ (responds : List ℕ → Bool) where
  asked_lem :
      (t m : String) (cancel markup by_hand : Bool) (subject : Option Json) (text : String)
      → subject_text subject ≡ ok text
      → responds (take 500 (utf16 text)) ≡ true
      → ask_model responds subject
          (with_labels t m (shopping_labels cancel markup ++ reply_labels by_hand))
        ≡ ok (
            with_labels t m (
              shopping_labels cancel markup
              ++ (reply_labels by_hand ++ model_labels (by_hand || not (cancel || markup)))))
  unfolding ask_model classify_with_haiku assign_guesses assign_label upsert_label
  asked_lem t m true true true subject text hs hr = rw (hs, hr) refl
  asked_lem t m true true false subject text hs hr = refl
  asked_lem t m true false true subject text hs hr = rw (hs, hr) refl
  asked_lem t m true false false subject text hs hr = refl
  asked_lem t m false true true subject text hs hr = rw (hs, hr) refl
  asked_lem t m false true false subject text hs hr = refl
  asked_lem t m false false true subject text hs hr = rw (hs, hr) refl
  asked_lem t m false false false subject text hs hr = rw (hs, hr) refl

  pub labelled_lem :
      (tenant message : String) (envelope : Json) (text : String)
      → subject_text (get_field "subject" envelope) ≡ ok text
      → responds (take 500 (utf16 text)) ≡ true
      → labelled responds tenant message envelope
        ≡ ok (record (new_classification tenant message) {
          labels = labels_of (evaluate_signals envelope);
          is_finalized = true;
        })
  unfolding labelled finalize
  labelled_lem tenant message envelope text hs hr =
      let s = evaluate_signals envelope in
      let subject = get_field "subject" envelope in
      ap (λ r. r >>= ask_model responds subject >>= λ c. ok (finalize c))
        (rules_lem tenant message s)
      ∙ ap (λ r. r >>= λ c. ok (finalize c))
          (asked_lem tenant message s.method_cancel_detected s.ecommerce_markup_detected
            (is_by_hand s) subject text hs hr)
