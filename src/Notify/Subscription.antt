-- ===== src/Notify/Subscription.antt =====
-- src/notification-alerting/domain: the value object notification-preference.ts and the aggregate
-- notification-subscription.aggregate.ts with its stored form.
use volunteer_training.Prelude.{
  ◌≡◌, ◌↔◌, arith, Bool, true, false, not, ◌&&◌, Option, none, some, List, [], ◌∷◌, String, Eq,
  lookup, insert, insert_all, contains, add, add_all, delete, if◌then◌else◌, string_eq,
}
use Prim.Native.String.{◌++◌}
use volunteer_training.Prelude.Result.{Result, ok, throws, ok_or}

pub data EventType : Type 0 where
  message_quarantined priority_escalated needs_reply_aging : EventType

pub data DeliveryMode : Type 0 where
  immediate digest_only off : DeliveryMode

pub data Channel : Type 0 where
  push sms in_app digest_email : Channel

abbrev pub same_channel : Channel → Channel → Bool
same_channel push push = true
same_channel sms sms = true
same_channel in_app in_app = true
same_channel digest_email digest_email = true
same_channel _ _ = false

pub same_channel_iff : (a b : Channel) → (same_channel a b ≡ true) ↔ (a ≡ b)
same_channel_iff a b = ground arith

instance abbrev pub channel_eq : Eq Channel
channel_eq = record { same = same_channel; same_iff = same_channel_iff }

abbrev pub channel_text : Channel → String
channel_text push = "push"
channel_text sms = "sms"
channel_text in_app = "in_app"
channel_text digest_email = "digest_email"

pub record NotificationPreference : Type 0 where
  pub event_type : EventType
  pub delivery_mode : DeliveryMode
  pub preferred_channel : Channel

abbrev pub is_immediate_mode : DeliveryMode → Bool
is_immediate_mode immediate = true
is_immediate_mode _ = false

abbrev pub is_immediate : NotificationPreference → Bool
is_immediate p = is_immediate_mode p.delivery_mode

abbrev pub digest_of : EventType → NotificationPreference
digest_of t = record {
  event_type = t;
  delivery_mode = digest_only;
  preferred_channel = digest_email;
}

abbrev pub quarantine_preference : NotificationPreference
quarantine_preference = record {
  event_type = message_quarantined;
  delivery_mode = immediate;
  preferred_channel = push;
}

pub record NotificationSubscription : Type 0 where
  pub tenant_id : String
  pub user_id : String
  pub authorized_channels : List Channel
  pub preferences : List (String × NotificationPreference)

-- `initializeSafeDefaults` on an empty map.
unfoldable pub safe_defaults : List (String × NotificationPreference)
safe_defaults = insert "needs_reply_aging" (digest_of needs_reply_aging) (
    insert "priority_escalated" (digest_of priority_escalated)
      (insert "message_quarantined" quarantine_preference []))

-- The constructor.
unfoldable pub create : String → String → List Channel → NotificationSubscription
create tenant_id user_id channels = record {
  tenant_id = tenant_id;
  user_id = user_id;
  authorized_channels = add_all channels [];
  preferences = safe_defaults;
}

unfoldable pub update_preference :
    NotificationSubscription → String → NotificationPreference → Result NotificationSubscription
update_preference s event_type preference =
    if is_immediate preference && not (contains preference.preferred_channel s.authorized_channels)
    then throws
        ("Channel " ++ (channel_text preference.preferred_channel ++ " not authorized for user"))
    else ok (record s { preferences = insert event_type preference s.preferences })

unfoldable pub get_preference : NotificationSubscription → String → Option NotificationPreference
get_preference s event_type = lookup event_type s.preferences

abbrev pub is_immediate_if : Option NotificationPreference → Bool
is_immediate_if none = false
is_immediate_if (some p) = is_immediate p

unfoldable pub should_notify_immediately : NotificationSubscription → String → Bool
unfolding get_preference
should_notify_immediately s event_type = is_immediate_if (get_preference s event_type)

unfoldable pub is_channel_authorized : NotificationSubscription → Channel → Bool
is_channel_authorized s channel = contains channel s.authorized_channels

unfoldable pub authorize_channel : NotificationSubscription → Channel → NotificationSubscription
authorize_channel s channel = record s { authorized_channels = add channel s.authorized_channels }

unfoldable pub revoke_channel : NotificationSubscription → Channel → NotificationSubscription
revoke_channel s channel = record s { authorized_channels = delete channel s.authorized_channels }

-- The stored form. The object of the preferences keeps the order of its keys, which are no numerals.
pub record SubscriptionRow : Type 0 where
  pub tenant_id : String
  pub user_id : String
  pub preferences : Option (List (String × NotificationPreference))
  pub authorized_channels : Option (List Channel)

unfoldable pub to_db : NotificationSubscription → SubscriptionRow
to_db s = record {
  tenant_id = s.tenant_id;
  user_id = s.user_id;
  preferences = some (insert_all s.preferences []);
  authorized_channels = some s.authorized_channels;
}

abbrev pub or_none {ℓ} : {A : Type ℓ} → Option (List A) → List A
or_none none = []
or_none (some xs) = xs

unfoldable pub from_db : SubscriptionRow → NotificationSubscription
unfolding create
from_db r = record (create r.tenant_id r.user_id (or_none r.authorized_channels)) {
  preferences = insert_all (or_none r.preferences) [];
}

-- The calls that change a subscription; one that throws changes nothing.
pub data Operation : Type 0 where
  updates : String → NotificationPreference → Operation
  authorizes revokes : Channel → Operation

abbrev pub step : Operation → NotificationSubscription → NotificationSubscription
step (updates event_type p) s = ok_or s (update_preference s event_type p)
step (authorizes c) s = authorize_channel s c
step (revokes c) s = revoke_channel s c

abbrev pub run : List Operation → NotificationSubscription → NotificationSubscription
run [] s = s
run (o ∷ os) s = run os (step o s)
