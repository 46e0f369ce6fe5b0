-- ===== src/Feedback/Reputation.antt =====
-- src/feedback-learning/domain: the aggregate sender-reputation-cache.aggregate.ts with its stored form
-- and the value object reputation-entry.ts. Weights are floating-point numbers; what the code does
-- with them is an interface.
use volunteer_training.Prelude.{
  ℕ, ◌+◌, ◌≡◌, Bool, true, false, Option, none, some, List, [], ◌∷◌, String, lookup, insert,
  insert_all, if◌then◌else◌, string_eq,
}

pub record Weight (W : Type 0) : Type 0 where
  -- `Math.min(1.0, a + b)`
  pub add_capped : W → W → W
  -- `>` and `>=`
  pub greater : W → W → Bool
  pub at_least : W → W → Bool
  -- The constant 0.05.
  pub boost : W

-- What holds of the comparisons of all floating-point numbers, NaN included.
pub record IsCompared (W : Type 0) ⦃w : Weight W⦄ : Type 0 where
  pub greater_self : (x : W) → w.greater x x ≡ false
  pub greater_trans :
      (x y z : W) → w.greater y x ≡ true → w.greater z x ≡ false → w.greater z y ≡ false

pub record ReputationEntry (W : Type 0) : Type 0 where
  pub category : String
  pub observation_count : ℕ
  pub confidence_weight : W
  pub last_updated_at : ℕ

pub record SenderReputationCache (W : Type 0) : Type 0 where
  pub tenant_id : String
  pub sender_domain : String
  pub category_history : List (String × ReputationEntry W)

-- The stored form; an entry is stored as its four fields, and category names are no numerals.
pub record ReputationRow (W : Type 0) : Type 0 where
  pub tenant_id : String
  pub sender_domain : String
  pub category_confidence : Option (List (String × ReputationEntry W))
  pub last_updated : ℕ

module _ {W : Type 0} where
  unfoldable pub with_additional_observation :
      ⦃w : Weight W⦄ → ReputationEntry W → W → ℕ → ReputationEntry W
  with_additional_observation ⦃w⦄ e confidence_boost now = record {
    category = e.category;
    observation_count = e.observation_count + 1;
    confidence_weight = w.add_capped e.confidence_weight confidence_boost;
    last_updated_at = now;
  }

  unfoldable pub is_high_confidence : ⦃w : Weight W⦄ → ReputationEntry W → W → Bool
  is_high_confidence ⦃w⦄ e threshold = w.at_least e.confidence_weight threshold

  unfoldable pub create : String → String → SenderReputationCache W
  create tenant_id sender_domain = record {
    tenant_id = tenant_id;
    sender_domain = sender_domain;
    category_history = [];
  }

  -- The entry that a call stores: the one that is there with one more observation, or a new one.
  abbrev pub observed :
      ⦃w : Weight W⦄ → String → W → ℕ → Option (ReputationEntry W) → ReputationEntry W
  observed ⦃w⦄ category weight now none = record {
    category = category;
    observation_count = 1;
    confidence_weight = weight;
    last_updated_at = now;
  }
  observed ⦃w⦄ category weight now (some e) = with_additional_observation e w.boost now

  unfoldable pub record_category :
      ⦃w : Weight W⦄ → SenderReputationCache W → String → W → ℕ → SenderReputationCache W
  record_category s category weight now = record s {
    category_history =
        insert category (observed category weight now (lookup category s.category_history))
          s.category_history;
  }

  -- `!best || entry.confidenceWeight > best[1].confidenceWeight`
  abbrev pub is_better :
      ⦃w : Weight W⦄ → ReputationEntry W → Option (String × ReputationEntry W) → Bool
  is_better e none = true
  is_better ⦃w⦄ e (some (c, b)) = w.greater e.confidence_weight b.confidence_weight

  -- The loop over the map.
  unfoldable pub best_of :
      ⦃w : Weight W⦄
      → List (String × ReputationEntry W)
      → Option (String × ReputationEntry W)
      → Option (String × ReputationEntry W)
  best_of [] best = best
  best_of ((c, e) ∷ m) best = best_of m (if is_better e best then some (c, e) else best)

  abbrev pub key_of : Option (String × ReputationEntry W) → Option String
  key_of none = none
  key_of (some (c, e)) = some c

  unfoldable pub get_most_likely_category : ⦃w : Weight W⦄ → SenderReputationCache W → Option String
  unfolding best_of
  get_most_likely_category s = key_of (best_of s.category_history none)

  abbrev pub weight_of : Option (ReputationEntry W) → Option W
  weight_of none = none
  weight_of (some e) = some e.confidence_weight

  unfoldable pub get_category_confidence : SenderReputationCache W → String → Option W
  get_category_confidence s category = weight_of (lookup category s.category_history)

  abbrev pub high_categories : ⦃w : Weight W⦄ → W → List (String × ReputationEntry W) → List String
  high_categories threshold [] = []
  high_categories ⦃w⦄ threshold ((c, e) ∷ m) =
      let rest = high_categories threshold m in
      if w.at_least e.confidence_weight threshold then c ∷ rest else rest

  unfoldable pub get_high_confidence_categories :
      ⦃w : Weight W⦄ → SenderReputationCache W → W → List String
  get_high_confidence_categories s threshold = high_categories threshold s.category_history

  unfoldable pub to_db : SenderReputationCache W → ℕ → ReputationRow W
  to_db s now = record {
    tenant_id = s.tenant_id;
    sender_domain = s.sender_domain;
    category_confidence = some (insert_all s.category_history []);
    last_updated = now;
  }

  abbrev pub or_none :
      Option (List (String × ReputationEntry W)) → List (String × ReputationEntry W)
  or_none none = []
  or_none (some m) = m

  unfoldable pub from_db : ReputationRow W → SenderReputationCache W
  from_db r = record {
    tenant_id = r.tenant_id;
    sender_domain = r.sender_domain;
    category_history = insert_all (or_none r.category_confidence) [];
  }
