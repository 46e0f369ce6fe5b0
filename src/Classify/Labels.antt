-- ===== src/Classify/Labels.antt =====
-- src/classification/domain/aggregates/message-classification.ts. Confidences are counted in
-- hundredths.
use volunteer_training.Prelude.{
  ℕ, nat_beq, Bool, true, false, not, ◌&&◌, Option, none, List, [], ◌∷◌, String, if◌then◌else◌,
}
use volunteer_training.Prelude.Result.{Result, ok, throws}
use volunteer_training.Classify.Signals.{RuleSignalSet}

pub data Category : Type 0 where
  personal work marketing finance health shopping travel social needs_reply : Category

abbrev pub category_number : Category → ℕ
category_number personal = 0
category_number work = 1
category_number marketing = 2
category_number finance = 3
category_number health = 4
category_number shopping = 5
category_number travel = 6
category_number social = 7
category_number needs_reply = 8

pub data SourceTier : Type 0 where
  rule cheap_llm frontier_llm : SourceTier

pub record LabelAssignment : Type 0 where
  pub category : Category
  pub confidence : ℕ
  pub source_tier : SourceTier
  pub classifier_version : String

pub record MessageClassification : Type 0 where
  pub tenant_id : String
  pub message_id : String
  pub labels : List LabelAssignment
  pub is_finalized : Bool
  pub tier_attempted : Option SourceTier
  pub pipeline_version : String

abbrev pub new_classification : String → String → MessageClassification
new_classification tenant message = record {
  tenant_id = tenant;
  message_id = message;
  labels = [];
  is_finalized = false;
  tier_attempted = none;
  pipeline_version = "1.0.0";
}

abbrev pub same_category : Category → Category → Bool
same_category a b = nat_beq (category_number a) (category_number b)

-- The first label of the category is replaced, or the label is put at the end.
unfoldable pub upsert_label : LabelAssignment → List LabelAssignment → List LabelAssignment
upsert_label l [] = l ∷ []
upsert_label l (k ∷ ks) =
    let rest = upsert_label l ks in if same_category k.category l.category then l ∷ ks else k ∷ rest

abbrev pub finalized_message : String
finalized_message = "Cannot modify finalized classification"

unfoldable pub assign_label : MessageClassification → LabelAssignment → Result MessageClassification
unfolding upsert_label
assign_label c l =
    if c.is_finalized
    then throws finalized_message
    else if same_category l.category needs_reply
    then throws "Cannot assign NeedsReply without checking automation signals"
    else ok (record c { labels = upsert_label l c.labels })

abbrev pub needs_reply_label : ℕ → String → LabelAssignment
needs_reply_label confidence version = record {
  category = needs_reply;
  confidence = confidence;
  source_tier = rule;
  classifier_version = version;
}

unfoldable pub assign_needs_reply_if_valid :
    MessageClassification → RuleSignalSet → ℕ → Result MessageClassification
unfolding upsert_label
assign_needs_reply_if_valid c s confidence =
    if c.is_finalized
    then throws finalized_message
    else if not s.list_unsubscribe_present && not s.precedence_bulk && not s.auto_submitted_present
    then ok (record c {
      labels = upsert_label (needs_reply_label confidence c.pipeline_version) c.labels;
    })
    else ok c

unfoldable pub finalize : MessageClassification → MessageClassification
finalize c = record c { is_finalized = true }
