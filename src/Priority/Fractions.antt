-- ===== src/Priority/Fractions.antt =====
-- With weights between 0 and 1 a score is always computed.
use volunteer_training.Prelude.{
  ℕ, ◌≤◌, ◌≡◌, refl, ap, Bool, true, false, ◌&&◌, List, [], ◌∷◌, String, arith,
}
use volunteer_training.Prelude.Int.{ℤ, pos, ◌+ℤ◌}
use volunteer_training.Prelude.Result.{ok, ◌>>=◌}
use volunteer_training.Priority.Score.{
  SignalType, vip_status, interaction_frequency, urgency_language, calendar_proximity,
  needs_reply_aging, ScoreComponent, create_component, is_out_of_range, Weighing, IsScaling,
  magnitude, ScoringWeights, weight_of,
}
use volunteer_training.Priority.Message.{clamped, pending, weigh_all, scored, compute_score}
use volunteer_training.Priority.Bounds.{all_in_range, Call, run, run-IsSound}

abbrev pub sum : List ScoreComponent → ℤ
sum [] = pos 0
sum (c ∷ cs) = c.contribution +ℤ sum cs

within :
    (a b : ℤ) → magnitude a ≤ magnitude b → is_out_of_range b ≡ false → is_out_of_range a ≡ false
within a b m h = ground arith

module _ {W : Type 0} ⦃w : Weighing W⦄ where
  abbrev pub all_fractions : ScoringWeights W → Bool
  all_fractions s =
      w.is_fraction s.vip_weight
      && w.is_fraction s.frequency_weight
      && w.is_fraction s.urgency_weight
      && w.is_fraction s.calendar_weight
      && w.is_fraction s.needs_reply_aging_weight

  -- The weighted contributions and their sum, without the check of the constructor.
  abbrev pub weighted : ScoringWeights W → List ScoreComponent → List ScoreComponent
  weighted weights [] = []
  weighted weights (c ∷ cs) =
      record c { contribution = w.scaled c.contribution (weight_of c.signal weights) }
      ∷ weighted weights cs

  weight_of-is_fraction :
      (s : SignalType) (weights : ScoringWeights W)
      → all_fractions weights ≡ true
      → w.is_fraction (weight_of s weights) ≡ true
  weight_of-is_fraction vip_status weights h = ground (arith, h)
  weight_of-is_fraction interaction_frequency weights h = ground (arith, h)
  weight_of-is_fraction urgency_language weights h = ground (arith, h)
  weight_of-is_fraction calendar_proximity weights h = ground (arith, h)
  weight_of-is_fraction needs_reply_aging weights h = ground (arith, h)

  weigh_all_lem :
      ⦃l : IsScaling W⦄ (weights : ScoringWeights W) (cs : List ScoreComponent)
      → all_fractions weights ≡ true
      → all_in_range cs ≡ true
      → weigh_all weights cs ≡ ok (sum (weighted weights cs), weighted weights cs)
  unfolding weigh_all create_component
  weigh_all_lem weights [] f h = refl
  weigh_all_lem ⦃l⦄ weights (c ∷ cs) f h =
      let x = weight_of c.signal weights in
      let here : is_out_of_range c.contribution ≡ false = ground (arith, h) in
      let fits =
        within (w.scaled c.contribution x) c.contribution
          (l.scaled_bound c.contribution x (weight_of-is_fraction c.signal weights f)) here in
      let rest = weigh_all_lem weights cs f (ground (arith, h)) in rw (fits, rest) refl

  -- With weights between 0 and 1, a score is computed after any history of calls, whatever was added
  -- and stored: it is the sum of the rounded contributions, cut off at 0 and 100, and comes with them.
  pub compute_score-run :
      ⦃l : IsScaling W⦄ (cs : List (Call W)) (tenant message : String) (created now : ℕ)
      (weights : ScoringWeights W)
      → all_fractions weights ≡ true
      → (let p = run cs (pending tenant message created now) in
          let new = weighted weights p.components in
          compute_score p weights ≡ ok (clamped (sum new), new))
  unfolding compute_score
  compute_score-run cs tenant message created now weights f =
      let p = run cs (pending tenant message created now) in
      ap (λ r. r >>= scored)
        (weigh_all_lem weights p.components f (run-IsSound cs tenant message created now).1)
