-- ===== src/Priority/Message.antt =====
-- src/prioritization/domain/aggregates/message-priority.aggregate.ts
use volunteer_training.Prelude.{
  ℕ, Bool, true, false, ◌&&◌, Option, none, some, List, [], ◌∷◌, String, if◌then◌else◌,
}
use volunteer_training.Prelude.Int.{ℤ, pos, ◌+ℤ◌, leb_ℤ, max_ℤ, min_ℤ}
use volunteer_training.Prelude.Result.{Result, ok, ◌>>=◌}
use volunteer_training.Priority.Score.{
  SignalType, vip_status, interaction_frequency, urgency_language, calendar_proximity,
  needs_reply_aging, ScoreComponent, create_component, component_from_json, Weighing,
  ScoringWeights, weight_of,
}

pub data PriorityTier : Type 0 where
  critical high normal low : PriorityTier

pub record MessagePriority : Type 0 where
  pub tenant_id : String
  pub message_id : String
  pub components : List ScoreComponent
  pub score : ℤ
  pub tier : PriorityTier
  pub is_pending_signals : Bool
  pub created_at : ℕ
  pub updated_at : ℕ

-- `Math.max(0, Math.min(100, score))`
abbrev pub clamped : ℤ → ℤ
unfolding max_ℤ min_ℤ
clamped score = max_ℤ (pos 0) (min_ℤ (pos 100) score)

-- The constructor, on the properties that it is given.
unfoldable pub create_priority : MessagePriority → MessagePriority
create_priority props = record props { score = clamped props.score }

unfoldable pub pending : String → String → ℕ → ℕ → MessagePriority
unfolding create_priority
pending tenant message created updated = create_priority (record {
  tenant_id = tenant;
  message_id = message;
  components = [];
  score = pos 0;
  tier = normal;
  is_pending_signals = true;
  created_at = created;
  updated_at = updated;
})

abbrev pub tier_for_score : ℤ → PriorityTier
tier_for_score score =
    if leb_ℤ (pos 80) score
    then critical
    else if leb_ℤ (pos 60) score
    then high
    else if leb_ℤ (pos 30) score
    then normal
    else low

-- The loop of `computeScore`: the total and the weighted components.
unfoldable pub weigh_all :
    {W : Type 0} ⦃w : Weighing W⦄
    → ScoringWeights W
    → List ScoreComponent
    → Result (ℤ × List ScoreComponent)
weigh_all ⦃w⦄ weights [] = ok (pos 0, [])
weigh_all ⦃w⦄ weights (c ∷ cs) =
    let contribution = w.scaled c.contribution (weight_of c.signal weights) in
    create_component c.signal contribution c.evidence >>= λ weighted.
    weigh_all weights cs >>= λ rest. ok (contribution +ℤ rest.0, weighted ∷ rest.1)

abbrev pub scored : ℤ × List ScoreComponent → Result (ℤ × List ScoreComponent)
scored (total, components) = ok (clamped total, components)

unfoldable pub compute_score :
    {W : Type 0} ⦃w : Weighing W⦄
    → MessagePriority
    → ScoringWeights W
    → Result (ℤ × List ScoreComponent)
unfolding weigh_all
compute_score p weights = weigh_all weights p.components >>= scored

abbrev pub is_calm : PriorityTier → Bool
is_calm normal = true
is_calm low = true
is_calm _ = false

abbrev pub is_urgent : PriorityTier → Bool
is_urgent high = true
is_urgent critical = true
is_urgent _ = false

-- The call with its result, the tier that an escalation leads to.
unfoldable pub update_score :
    MessagePriority → ℤ → List ScoreComponent → ℕ → MessagePriority × Option PriorityTier
update_score p new_score components now =
    let score = clamped new_score in
    let tier = tier_for_score score in
    let q = record p {
      score = score;
      components = components;
      tier = tier;
      is_pending_signals = false;
      updated_at = now;
    } in
    (q, if is_calm p.tier && is_urgent tier then some tier else none)

abbrev pub signal_eq : SignalType → SignalType → Bool
signal_eq vip_status vip_status = true
signal_eq interaction_frequency interaction_frequency = true
signal_eq urgency_language urgency_language = true
signal_eq calendar_proximity calendar_proximity = true
signal_eq needs_reply_aging needs_reply_aging = true
signal_eq _ _ = false

-- The first component of the same signal is replaced, or the component is put at the end.
unfoldable pub put_component : ScoreComponent → List ScoreComponent → List ScoreComponent
put_component c [] = c ∷ []
put_component c (d ∷ ds) =
    let rest = put_component c ds in if signal_eq d.signal c.signal then c ∷ ds else d ∷ rest

unfoldable pub add_component : MessagePriority → ScoreComponent → MessagePriority
unfolding put_component
add_component p c = record p { components = put_component c p.components }

-- The stored form. A time is stored as its text, which reads as that time.
pub record PriorityJson : Type 0 where
  pub tenant_id : String
  pub message_id : String
  pub components : Option (List ScoreComponent)
  pub score : ℤ
  pub tier : PriorityTier
  pub is_pending_signals : Bool
  pub created_at : ℕ
  pub updated_at : ℕ

unfoldable pub to_json : MessagePriority → PriorityJson
to_json p = record {
  tenant_id = p.tenant_id;
  message_id = p.message_id;
  components = some p.components;
  score = p.score;
  tier = p.tier;
  is_pending_signals = p.is_pending_signals;
  created_at = p.created_at;
  updated_at = p.updated_at;
}

abbrev pub components_or_none : Option (List ScoreComponent) → List ScoreComponent
components_or_none none = []
components_or_none (some cs) = cs

unfoldable pub components_from_json : List ScoreComponent → Result (List ScoreComponent)
unfolding component_from_json
components_from_json [] = ok []
components_from_json (c ∷ cs) =
    component_from_json c >>= λ read. components_from_json cs >>= λ rest. ok (read ∷ rest)

unfoldable pub from_json : PriorityJson → Result MessagePriority
unfolding components_from_json create_priority
from_json json = components_from_json (components_or_none json.components) >>= λ components. ok (
    create_priority (record {
      tenant_id = json.tenant_id;
      message_id = json.message_id;
      components = components;
      score = json.score;
      tier = json.tier;
      is_pending_signals = json.is_pending_signals;
      created_at = json.created_at;
      updated_at = json.updated_at;
    }))
