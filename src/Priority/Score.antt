-- ===== src/Priority/Score.antt =====
-- src/prioritization/domain/value-objects: score-component.ts and scoring-weights.ts. Scores and
-- contributions are integers; what the code does with weights, which are finite floating-point
-- numbers, is an interface.
use volunteer_training.Prelude.{ℕ, ◌+◌, Bool, true, ◌||◌, String, if◌then◌else◌, ◌≡◌, ◌≤◌}
use volunteer_training.Prelude.Int.{ℤ, pos, negsuc, pos_part, neg_part, ltb_ℤ}
use volunteer_training.Prelude.Result.{Result, ok, throws}
use Prim.Native.String.{◌++◌}

pub data SignalType : Type 0 where
  vip_status interaction_frequency urgency_language calendar_proximity : SignalType
  needs_reply_aging : SignalType

pub record ScoreComponent : Type 0 where
  pub signal : SignalType
  pub contribution : ℤ
  pub evidence : String

abbrev pub range_message : String
range_message = "ScoreComponent contribution must be between -100 and 100"

abbrev pub is_out_of_range : ℤ → Bool
is_out_of_range contribution = ltb_ℤ contribution (negsuc 99) || ltb_ℤ (pos 100) contribution

-- The constructor.
unfoldable pub create_component : SignalType → ℤ → String → Result ScoreComponent
create_component signal contribution evidence =
    if is_out_of_range contribution
    then throws range_message
    else ok (record { signal = signal; contribution = contribution; evidence = evidence })

-- The stored form has the same three fields; reading it calls the constructor.
unfoldable pub component_from_json : ScoreComponent → Result ScoreComponent
unfolding create_component
component_from_json json = create_component json.signal json.contribution json.evidence

pub record Weighing (W : Type 0) : Type 0 where
  -- The sum of five weights, and `Math.abs(total - 1.0) > 0.01` of it.
  pub total : W → W → W → W → W → W
  pub is_far_from_one : W → Bool
  pub text : W → String
  -- `Math.round(contribution * weight)`
  pub scaled : ℤ → W → ℤ
  -- Whether a weight lies between 0 and 1, and the constants 0.25, 0.20, 0.30, 0.10 and 0.15.
  pub quarter : W
  pub fifth : W
  pub three_tenths : W
  pub tenth : W
  pub fifteen_hundredths : W
  pub is_fraction : W → Bool

abbrev pub magnitude : ℤ → ℕ
magnitude z = pos_part z + neg_part z

-- A rounded fraction of an integer is not greater than the integer.
pub record IsScaling (W : Type 0) ⦃w : Weighing W⦄ : Type 0 where
  pub scaled_bound :
      (c : ℤ) (x : W) → w.is_fraction x ≡ true → magnitude (w.scaled c x) ≤ magnitude c

pub record ScoringWeights (W : Type 0) : Type 0 where
  pub vip_weight : W
  pub frequency_weight : W
  pub urgency_weight : W
  pub calendar_weight : W
  pub needs_reply_aging_weight : W

module _ {W : Type 0} where
  unfoldable pub create_weights : ⦃w : Weighing W⦄ → W → W → W → W → W → Result (ScoringWeights W)
  create_weights ⦃w⦄ vip frequency urgency calendar aging =
      let total = w.total vip frequency urgency calendar aging in
      if w.is_far_from_one total
      then throws ("Weights must sum to 1.0 (got " ++ w.text total ++ ")")
      else ok (record {
        vip_weight = vip;
        frequency_weight = frequency;
        urgency_weight = urgency;
        calendar_weight = calendar;
        needs_reply_aging_weight = aging;
      })

  unfoldable pub defaults : ⦃w : Weighing W⦄ → Result (ScoringWeights W)
  unfolding create_weights
  defaults ⦃w⦄ = create_weights w.quarter w.fifth w.three_tenths w.tenth w.fifteen_hundredths

  -- The weights are stored as five fields; reading them calls the constructor.
  unfoldable pub weights_from_json : ⦃w : Weighing W⦄ → ScoringWeights W → Result (ScoringWeights W)
  unfolding create_weights
  weights_from_json json =
      create_weights json.vip_weight json.frequency_weight json.urgency_weight json.calendar_weight
        json.needs_reply_aging_weight

  -- The switch over the signal.
  abbrev pub weight_of : SignalType → ScoringWeights W → W
  weight_of vip_status s = s.vip_weight
  weight_of interaction_frequency s = s.frequency_weight
  weight_of urgency_language s = s.urgency_weight
  weight_of calendar_proximity s = s.calendar_weight
  weight_of needs_reply_aging s = s.needs_reply_aging_weight
