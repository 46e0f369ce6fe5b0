-- ===== src/Contacts/Profile.antt =====
-- src/contact-graph/domain: the aggregate sender-profile.aggregate.ts, its events, and
-- interaction-event.entity.ts.
use volunteer_training.Prelude.{
  ℕ, ◌+◌, ◌*◌, ◌-◌, Bool, true, false, not, ◌&&◌, ◌||◌, List, [], ◌∷◌, ◌++◌, String, ltb, leb,
  length, if◌then◌else◌,
}
use volunteer_training.Contacts.Classification.{
  ContactClassificationType, personal, automated, unknown, Fraction, ContactClassification,
  unknown_contact, from_signals, AutomatedSenderSignal, from_list_unsubscribe_header,
  from_from_address_pattern, from_contacts_api_match, from_bidirectional_history,
  from_display_name_heuristic,
}

pub data Direction : Type 0 where
  inbound outbound : Direction

pub record InteractionEvent : Type 0 where
  pub direction : Direction
  pub message_id : String
  pub occurred_at : ℕ

pub record ContactSignals : Type 0 where
  pub automation_header_absent : Bool
  pub from_address_valid : Bool
  pub contacts_api_match : Bool
  pub bidirectional_thread_history : Bool
  pub display_name_personal : Bool

pub record InteractionFrequency : Type 0 where
  pub total_interactions : ℕ
  pub bidirectional_count : ℕ
  pub inbound_count : ℕ
  pub outbound_count : ℕ
  pub window_days : ℕ

pub data VipSource : Type 0 where
  manual auto_promoted : VipSource

-- The events, without the tenant, the mailbox and the address of the profile, which each carries.
pub data ContactEvent : Type 0 where
  sender_classified : ContactClassificationType → Fraction → ContactEvent
  contact_promoted_to_vip : VipSource → ContactEvent
  interaction_frequency_updated : ℕ → ℕ → ℕ → ContactEvent

pub record SenderProfile : Type 0 where
  pub tenant_id : String
  pub mailbox_id : String
  pub sender_address : String
  pub classification : ContactClassification
  pub is_vip : Bool
  pub vip_auto_promoted : Bool
  pub interaction_events : List InteractionEvent
  pub domain_events : List ContactEvent

abbrev pub new_profile : String → String → String → SenderProfile
new_profile tenant mailbox address = record {
  tenant_id = tenant;
  mailbox_id = mailbox;
  sender_address = address;
  classification = unknown_contact;
  is_vip = false;
  vip_auto_promoted = false;
  interaction_events = [];
  domain_events = [];
}

abbrev pub push : SenderProfile → ContactEvent → SenderProfile
push p e = record p { domain_events = p.domain_events ++ e ∷ [] }

unfoldable pub from_address : Bool → AutomatedSenderSignal
from_address is_valid =
    from_from_address_pattern (if is_valid then "user@example.com" else "noreply@service.com")

abbrev pub signal_objects : ContactSignals → List AutomatedSenderSignal
signal_objects s =
    from_list_unsubscribe_header (not s.automation_header_absent)
    ∷ from_address s.from_address_valid
    ∷ from_contacts_api_match s.contacts_api_match
    ∷ from_bidirectional_history s.bidirectional_thread_history
    ∷ from_display_name_heuristic s.display_name_personal
    ∷ []

abbrev pub same_type : ContactClassificationType → ContactClassificationType → Bool
same_type personal personal = true
same_type automated automated = true
same_type unknown unknown = true
same_type _ _ = false

-- `Math.abs(a - b) > 0.1`
abbrev pub differs_by_tenth : Fraction → Fraction → Bool
differs_by_tenth a b =
    let p = a.part * b.whole in
    let q = b.part * a.whole in ltb (a.whole * b.whole) (10 * ((p - q) + (q - p)))

abbrev pub is_material : ContactClassification → ContactClassification → Bool
is_material old new =
    not (same_type old.classification new.classification)
    || differs_by_tenth old.confidence new.confidence

unfoldable pub update_classification : SenderProfile → ContactSignals → SenderProfile
unfolding from_signals
update_classification p signals =
    let new = from_signals (signal_objects signals) in
    let q = record p { classification = new } in
    if is_material p.classification new && not (same_type new.classification unknown)
    then push q (sender_classified new.classification new.confidence)
    else q

unfoldable pub record_interaction : SenderProfile → Direction → String → ℕ → SenderProfile
record_interaction p direction message_id occurred_at =
    let e : InteractionEvent = record {
      direction = direction;
      message_id = message_id;
      occurred_at = occurred_at;
    } in
    record p { interaction_events = p.interaction_events ++ e ∷ [] }

abbrev pub day : ℕ
day = 24 * 60 * 60 * 1000

-- `occurredAt > now - windowDays * day`
abbrev pub is_recent : ℕ → ℕ → InteractionEvent → Bool
is_recent window_days now e = ltb now (e.occurred_at + window_days * day)

unfoldable pub recent_events : ℕ → ℕ → List InteractionEvent → List InteractionEvent
recent_events window_days now [] = []
recent_events window_days now (e ∷ es) =
    let rest = recent_events window_days now es in
    if is_recent window_days now e then e ∷ rest else rest

abbrev pub counted : Direction → ℕ × ℕ → ℕ × ℕ
counted inbound (i, o) = (i + 1, o)
counted outbound (i, o) = (i, o + 1)

-- The loop over the recent events, with the two counters.
unfoldable pub count_directions : List InteractionEvent → ℕ × ℕ → ℕ × ℕ
count_directions [] counts = counts
count_directions (e ∷ es) counts = count_directions es (counted e.direction counts)

unfoldable pub compute_interaction_frequency : SenderProfile → ℕ → ℕ → InteractionFrequency
unfolding recent_events count_directions
compute_interaction_frequency p window_days now =
    let recent = recent_events window_days now p.interaction_events in
    let (i, o) = count_directions recent (0, 0) in
    record {
      total_interactions = length recent;
      bidirectional_count = o;
      inbound_count = i;
      outbound_count = o;
      window_days = window_days;
    }

abbrev pub promoted : SenderProfile → VipSource → Bool → SenderProfile
promoted p source auto =
    push (record p { is_vip = true; vip_auto_promoted = auto }) (contact_promoted_to_vip source)

unfoldable pub promote_to_vip_if_qualified : SenderProfile → ℕ → ℕ → ℕ → SenderProfile × Bool
unfolding compute_interaction_frequency
promote_to_vip_if_qualified p min_bidirectional_threshold window_days now =
    let frequency = compute_interaction_frequency p window_days now in
    if p.is_vip
    then (p, false)
    else if not (same_type p.classification.classification personal)
    then (p, false)
    else if leb min_bidirectional_threshold frequency.bidirectional_count
    then (promoted p auto_promoted true, true)
    else (p, false)

unfoldable pub set_manual_vip_designation : SenderProfile → Bool → SenderProfile
set_manual_vip_designation p is_vip =
    let q = record p { is_vip = is_vip; vip_auto_promoted = false } in
    if is_vip && not p.is_vip then push q (contact_promoted_to_vip manual) else q

unfoldable pub update_interaction_frequency : SenderProfile → ℕ → ℕ → SenderProfile
unfolding compute_interaction_frequency
update_interaction_frequency p window_days now =
    let f = compute_interaction_frequency p window_days now in
    push p (interaction_frequency_updated f.bidirectional_count f.total_interactions window_days)

unfoldable pub clear_domain_events : SenderProfile → SenderProfile
clear_domain_events p = record p { domain_events = [] }
