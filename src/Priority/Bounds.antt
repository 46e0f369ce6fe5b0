-- ===== src/Priority/Bounds.antt =====
-- What holds of a message's priority after any history of calls.
use volunteer_training.Prelude.{
  ℕ, ◌≡◌, refl, ap, Bool, Bool-cases, inl, inr, true, false, not, ◌&&◌, ◌||◌, List, [], ◌∷◌, String,
  arith,
}
use volunteer_training.Prelude.Int.{ℤ, pos, leb_ℤ, max_ℤ, min_ℤ, ◌+ℤ◌}
use volunteer_training.Prelude.Result.{Result, ok, ok_or, ◌>>=◌, Holds, Holds->>=, ok_or-Holds}
use volunteer_training.Priority.Score.{
  SignalType, ScoreComponent, create_component, component_from_json, is_out_of_range, Weighing,
  ScoringWeights, weight_of,
}
use volunteer_training.Priority.Message.{
  MessagePriority, PriorityTier, critical, high, normal, low, clamped, create_priority, pending,
  tier_for_score, weigh_all, scored, compute_score, update_score, put_component, add_component,
  components_from_json,
}

-- A component is made and added, a score is computed and stored, or a score is given with its
-- components, which are made first.
pub data Call (W : Type 0) : Type 0 where
  adds : SignalType → ℤ → String → Call W
  rescores : ScoringWeights W → ℕ → Call W
  updates : ℤ → List ScoreComponent → ℕ → Call W

abbrev pub added : MessagePriority → SignalType → ℤ → String → Result MessagePriority
added p s c e = create_component s c e >>= λ made. ok (add_component p made)

abbrev pub stored : MessagePriority → ℕ → ℤ × List ScoreComponent → Result MessagePriority
stored p now (score, cs) = ok ((update_score p score cs now).0)

abbrev pub updated : MessagePriority → ℤ → List ScoreComponent → ℕ → Result MessagePriority
updated p score cs now = components_from_json cs >>= λ made. stored p now (score, made)

module _ {W : Type 0} ⦃w : Weighing W⦄ where
  abbrev pub rescored : MessagePriority → ScoringWeights W → ℕ → Result MessagePriority
  rescored p weights now = compute_score p weights >>= stored p now

  -- A call that throws leaves the priority as it is.
  abbrev pub step : Call W → MessagePriority → MessagePriority
  step (adds s c e) p = ok_or p (added p s c e)
  step (rescores weights now) p = ok_or p (rescored p weights now)
  step (updates score cs now) p = ok_or p (updated p score cs now)

  abbrev pub run : List (Call W) → MessagePriority → MessagePriority
  run [] p = p
  run (c ∷ cs) p = run cs (step c p)

abbrev pub same_tier : PriorityTier → PriorityTier → Bool
same_tier critical critical = true
same_tier high high = true
same_tier normal normal = true
same_tier low low = true
same_tier _ _ = false

abbrev pub in_range : ℤ → Bool
in_range score = leb_ℤ (pos 0) score && leb_ℤ score (pos 100)

abbrev pub all_in_range : List ScoreComponent → Bool
all_in_range [] = true
all_in_range (c ∷ cs) = not (is_out_of_range c.contribution) && all_in_range cs

-- The score lies between 0 and 100, the contributions between -100 and 100, and the tier is that of the
-- score unless no score was stored yet.
abbrev pub IsSound : MessagePriority → Type 0
IsSound p =
    (in_range p.score ≡ true)
    × (all_in_range p.components ≡ true)
    × ((p.is_pending_signals || same_tier p.tier (tier_for_score p.score)) ≡ true)

clamped-in_range : (z : ℤ) → in_range (clamped z) ≡ true
unfolding max_ℤ min_ℤ
clamped-in_range z = ground arith

same_tier_refl : (t : PriorityTier) → same_tier t t ≡ true
same_tier_refl critical = refl
same_tier_refl high = refl
same_tier_refl normal = refl
same_tier_refl low = refl

put_component-all_in_range :
    (c : ScoreComponent) (cs : List ScoreComponent)
    → not (is_out_of_range c.contribution) ≡ true
    → all_in_range cs ≡ true
    → all_in_range (put_component c cs) ≡ true
unfolding put_component
put_component-all_in_range c [] hc h = rw hc refl
put_component-all_in_range c (d ∷ ds) hc h =
    ground (arith, hc, h, put_component-all_in_range c ds hc)

update_score-IsSound :
    (p : MessagePriority) (score : ℤ) (cs : List ScoreComponent) (now : ℕ)
    → all_in_range cs ≡ true
    → IsSound (update_score p score cs now).0
unfolding update_score
update_score-IsSound p score cs now h =
    (clamped-in_range score, h, same_tier_refl (tier_for_score (clamped score)))

abbrev IsInRange : ScoreComponent → Type 0
IsInRange c = not (is_out_of_range c.contribution) ≡ true

abbrev AllInRange : List ScoreComponent → Type 0
AllInRange cs = all_in_range cs ≡ true

create_component-IsInRange :
    (s : SignalType) (c : ℤ) (e : String) → Holds IsInRange (create_component s c e)
unfolding create_component
create_component-IsInRange s c e = elim (Bool-cases (is_out_of_range c)) [
  | inl out ↦ rw out tt
  | inr inside ↦ rw inside (ap not inside)
]

components_from_json-AllInRange :
    (cs : List ScoreComponent) → Holds AllInRange (components_from_json cs)
unfolding components_from_json component_from_json
components_from_json-AllInRange [] = refl
components_from_json-AllInRange (c ∷ cs) =
    let rest = components_from_json cs in
    Holds->>= IsInRange AllInRange (component_from_json c)
      (λ read. components_from_json cs >>= λ rest. ok (read ∷ rest))
      (create_component-IsInRange c.signal c.contribution c.evidence)
      (λ read h.
        Holds->>= AllInRange AllInRange (components_from_json cs) (λ rest. ok (read ∷ rest))
          (components_from_json-AllInRange cs) (λ rest k. rw h k))

abbrev PartsInRange : ℤ × List ScoreComponent → Type 0
PartsInRange r = AllInRange r.1

module _ {W : Type 0} ⦃w : Weighing W⦄ where
  weigh_all-AllInRange :
      (weights : ScoringWeights W) (cs : List ScoreComponent)
      → Holds PartsInRange (weigh_all weights cs)
  unfolding weigh_all
  weigh_all-AllInRange weights [] = refl
  weigh_all-AllInRange weights (c ∷ cs) =
      let n = w.scaled c.contribution (weight_of c.signal weights) in
      Holds->>= IsInRange PartsInRange (create_component c.signal n c.evidence)
        (λ made. weigh_all weights cs >>= λ rest. ok (n +ℤ rest.0, made ∷ rest.1))
        (create_component-IsInRange c.signal n c.evidence)
        (λ made h.
          Holds->>= PartsInRange PartsInRange (weigh_all weights cs)
            (λ rest. ok (n +ℤ rest.0, made ∷ rest.1)) (weigh_all-AllInRange weights cs)
            (λ rest k. rw h k))

  step-IsSound : (c : Call W) (p : MessagePriority) → IsSound p → IsSound (step c p)
  unfolding compute_score add_component
  step-IsSound (adds s c e) p h = ok_or-Holds IsSound p (added p s c e) h (
      Holds->>= IsInRange IsSound (create_component s c e) (λ made. ok (add_component p made))
        (create_component-IsInRange s c e)
        (λ made k. (h.0, put_component-all_in_range made p.components k h.1, h.2)))
  step-IsSound (rescores weights now) p h = ok_or-Holds IsSound p (rescored p weights now) h (
      Holds->>= PartsInRange IsSound (compute_score p weights) (stored p now)
        (Holds->>= PartsInRange PartsInRange (weigh_all weights p.components) scored
          (weigh_all-AllInRange weights p.components) (λ r k. k))
        (λ r k. update_score-IsSound p r.0 r.1 now k))
  step-IsSound (updates score cs now) p h = ok_or-Holds IsSound p (updated p score cs now) h (
      Holds->>= AllInRange IsSound (components_from_json cs) (λ made. stored p now (score, made))
        (components_from_json-AllInRange cs) (λ made k. update_score-IsSound p score made now k))

  run_from : (cs : List (Call W)) (p : MessagePriority) → IsSound p → IsSound (run cs p)
  run_from [] p h = h
  run_from (c ∷ cs) p h = run_from cs (step c p) (step-IsSound c p h)

  -- After any calls on a message's pending priority, the score lies between 0 and 100, every
  -- contribution between -100 and 100, and the tier is that of the score once one has been stored.
  pub run-IsSound :
      (cs : List (Call W)) (tenant message : String) (created now : ℕ)
      → IsSound (run cs (pending tenant message created now))
  unfolding pending create_priority max_ℤ min_ℤ
  run-IsSound cs tenant message created now =
      run_from cs (pending tenant message created now) (refl, refl, refl)
