-- ===== src/Feedback/Observations.antt =====
-- What the cache of a sender's categories holds after any history of calls.
use volunteer_training.Prelude.{
  ℕ, ◌+◌, ◌≡◌, ◌≤◌, refl, sym, Bool-cases, Option, none, some, List, [], ◌∷◌, String, string_eq,
  arith, if◌then◌else◌, ◌===◌, lookup, lookup-insert, inl, inr,
}
use mathlib.Core.Path.{subst}
use volunteer_training.Feedback.Reputation.{
  Weight, ReputationEntry, SenderReputationCache, create, record_category, observed,
  with_additional_observation,
}

-- The arguments of a call: the category, its weight and the time.
abbrev pub Call : Type 0 → Type 0
Call W = String × W × ℕ

add_zero : (n : ℕ) → n + 0 ≡ n
add_zero n = omega arith

add_assoc : (a b c : ℕ) → a + (b + c) ≡ a + b + c
add_assoc a b c = omega arith

module _ {W : Type 0} where
  abbrev pub run :
      ⦃w : Weight W⦄ → List (Call W) → SenderReputationCache W → SenderReputationCache W
  run [] s = s
  run ((category, weight, now) ∷ calls) s = run calls (record_category s category weight now)

  -- The number of calls for a category.
  abbrev pub calls_for : String → List (Call W) → ℕ
  calls_for c [] = 0
  calls_for c ((category, weight, now) ∷ calls) =
      (if category === c then 1 else 0) + calls_for c calls

  -- An entry is there for every category that had a call, with the number of its calls.
  abbrev pub Counts : ℕ → Option (ReputationEntry W) → Type 0
  Counts n none = n ≡ 0
  Counts n (some e) = (e.observation_count ≡ n) × (1 ≤ n)

  observed-Counts :
      ⦃w : Weight W⦄ (c : String) (x : W) (now n : ℕ) (o : Option (ReputationEntry W))
      → Counts n o
      → Counts (n + 1) (some (observed c x now o))
  unfolding with_additional_observation
  observed-Counts c x now n none h = (omega arith, omega arith)
  observed-Counts c x now n (some e) h = (omega arith, omega arith)

  step-Counts :
      ⦃w : Weight W⦄ (s : SenderReputationCache W) (c category : String) (x : W) (now n : ℕ)
      → Counts n (lookup c s.category_history)
      → Counts
          (n + (if category === c then 1 else 0))
          (lookup c (record_category s category x now).category_history)
  unfolding record_category
  step-Counts s c category x now n h =
      let e = observed category x now (lookup category s.category_history) in
      let there = lookup-insert category c e s.category_history in
      elim (Bool-cases (category === c)) [
        | inl one ↦
            let h' =
              subst (λ k. Counts n (lookup k s.category_history))
                (sym ((string_eq.same_iff category c).0 one)) h in
            rw (there, one)
              (observed-Counts category x now n (lookup category s.category_history) h')
        | inr other ↦ rw (there, other, add_zero n) h
      ]

  run_from :
      ⦃w : Weight W⦄ (calls : List (Call W)) (s : SenderReputationCache W) (c : String) (n : ℕ)
      → Counts n (lookup c s.category_history)
      → Counts (n + calls_for c calls) (lookup c (run calls s).category_history)
  run_from [] s c n h = rw (add_zero n) h
  run_from ((category, x, now) ∷ calls) s c n h =
      let k = if category === c then 1 else 0 in
      let h' = step-Counts s c category x now n h in
      let later = run_from calls (record_category s category x now) c (n + k) h' in
      rw (add_assoc n k (calls_for c calls)) later

  -- After any calls on a new cache, a category has an entry exactly when it had a call, and then the
  -- count of its observations is the number of its calls, whatever their weights were.
  pub record_category-Counts :
      ⦃w : Weight W⦄ (calls : List (Call W)) (tenant domain c : String)
      → Counts (calls_for c calls) (lookup c (run calls (create tenant domain)).category_history)
  unfolding create lookup
  record_category-Counts calls tenant domain c =
      let zero_add : 0 + calls_for c calls ≡ calls_for c calls = omega arith in
      subst (λ n. Counts n (lookup c (run calls (create tenant domain)).category_history)) zero_add
        (run_from calls (create tenant domain) c 0 refl)
