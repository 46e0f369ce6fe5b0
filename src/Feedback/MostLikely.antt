-- ===== src/Feedback/MostLikely.antt =====
-- The category that the cache takes for the most likely one.
use volunteer_training.Prelude.{
  ◌≡◌, refl, sym, ap, ◌∙◌, Bool, Bool-cases, true, false, Option, none, some, List, [], ◌∷◌, ◌++◌,
  String, arith, if◌then◌else◌, ◌⊎◌, inl, inr, any_of,
}
use mathlib.Core.List.{append-nil, append_assoc}
use volunteer_training.Feedback.Reputation.{
  Weight, IsCompared, ReputationEntry, SenderReputationCache, is_better, best_of,
  get_most_likely_category, key_of,
}

module _ {W : Type 0} where
  -- Some entry of the list has a greater weight.
  abbrev pub is_exceeded : ⦃w : Weight W⦄ → W → List (String × ReputationEntry W) → Bool
  is_exceeded ⦃w⦄ x m = any_of (λ p. w.greater p.1.confidence_weight x) m

  -- What the loop has found after the entries `seen`.
  abbrev IsBest :
      ⦃w : Weight W⦄
      → List (String × ReputationEntry W)
      → Option (String × ReputationEntry W)
      → Type 0
  IsBest seen none = seen ≡ []
  IsBest seen (some p) =
      ((before after : List (String × ReputationEntry W)) × (seen ≡ before ++ p ∷ after))
      × (is_exceeded p.1.confidence_weight seen ≡ false)

  any_of-snoc :
      (f : String × ReputationEntry W → Bool) (m : List (String × ReputationEntry W))
      (p : String × ReputationEntry W)
      → any_of f m ≡ false
      → f p ≡ false
      → any_of f (m ++ p ∷ []) ≡ false
  any_of-snoc f [] p h hp = ground arith
  any_of-snoc f (q ∷ m) p h hp = ground (arith, any_of-snoc f m p)

  -- What exceeds the new weight exceeds the old one, which it exceeds.
  is_exceeded_trans :
      ⦃w : Weight W⦄ ⦃l : IsCompared W⦄ (x y : W) (m : List (String × ReputationEntry W))
      → w.greater y x ≡ true
      → is_exceeded x m ≡ false
      → is_exceeded y m ≡ false
  is_exceeded_trans x y [] hy h = refl
  is_exceeded_trans ⦃w⦄ ⦃l⦄ x y ((c, e) ∷ m) hy h =
      ground (arith, l.greater_trans x y e.confidence_weight, is_exceeded_trans x y m)

  IsBest-step :
      ⦃w : Weight W⦄ ⦃l : IsCompared W⦄ (seen : List (String × ReputationEntry W)) (c : String)
      (e : ReputationEntry W) (best : Option (String × ReputationEntry W))
      → IsBest seen best
      → IsBest (seen ++ (c, e) ∷ []) (if is_better e best then some (c, e) else best)
  IsBest-step ⦃w⦄ ⦃l⦄ seen c e none h =
      rw h (([], [], refl), ground (arith, l.greater_self e.confidence_weight))
  IsBest-step ⦃w⦄ ⦃l⦄ seen c e (some (d, b)) ((before, after, at), h) =
      let ew = e.confidence_weight in
      let bw = b.confidence_weight in
      elim (Bool-cases (w.greater ew bw)) [
        | inl more ↦ rw more (
          (seen, [], refl),
          any_of-snoc (λ p. w.greater p.1.confidence_weight ew) seen (c, e)
              (is_exceeded_trans bw ew seen more h) (l.greater_self ew),
        )
        | inr less ↦ rw less (
          (
            before,
            after ++ (c, e) ∷ [],
            ap (λ l. l ++ (c, e) ∷ []) at ∙ append_assoc before ((d, b) ∷ after) ((c, e) ∷ []),
          ),
          any_of-snoc (λ p. w.greater p.1.confidence_weight bw) seen (c, e) h less,
        )
      ]

  best_of-IsBest :
      ⦃w : Weight W⦄ ⦃l : IsCompared W⦄ (m seen : List (String × ReputationEntry W))
      (best : Option (String × ReputationEntry W))
      → IsBest seen best
      → IsBest (seen ++ m) (best_of m best)
  unfolding best_of
  best_of-IsBest [] seen best h = rw (append-nil seen) h
  best_of-IsBest ((c, e) ∷ m) seen best h =
      let h' = IsBest-step seen c e best h in
      let same : (seen ++ (c, e) ∷ []) ++ m ≡ seen ++ (c, e) ∷ m =
        append_assoc seen ((c, e) ∷ []) m in
      rw (sym same)
        (best_of-IsBest m (seen ++ (c, e) ∷ []) (if is_better e best then some (c, e) else best) h')

  abbrev pub Best : ⦃w : Weight W⦄ → SenderReputationCache W → Type 0
  Best s =
      ((c : String) × (e : ReputationEntry W) × ((get_most_likely_category s ≡ some c)
          × (is_exceeded e.confidence_weight s.category_history ≡ false)
          × ((before after : List (String × ReputationEntry W)) × (s.category_history
                ≡ before ++ (c, e) ∷ after))))

  picked_lem :
      ⦃w : Weight W⦄ (s : SenderReputationCache W) (best : Option (String × ReputationEntry W))
      → best_of s.category_history none ≡ best
      → IsBest s.category_history best
      → ((get_most_likely_category s ≡ none) × (s.category_history ≡ [])) ⊎ Best s
  unfolding get_most_likely_category
  picked_lem s none found h = inl (ap key_of found, h)
  picked_lem s (some (c, e)) found ((before, after, at), h) =
      inr (c, e, (ap key_of found, h, (before, after, at)))

  -- The category that counts as the most likely one is none exactly when the cache has no entry, and
  -- otherwise that of an entry whose weight no entry of the cache exceeds, also where weights are no
  -- numbers.
  pub get_most_likely_category_lem :
      ⦃w : Weight W⦄ ⦃l : IsCompared W⦄ (s : SenderReputationCache W)
      → ((get_most_likely_category s ≡ none) × (s.category_history ≡ [])) ⊎ Best s
  unfolding get_most_likely_category
  get_most_likely_category_lem s =
      let m = s.category_history in
      picked_lem s (best_of m none) refl (best_of-IsBest m [] none refl)
