-- ===== src/Notify/Dispatch.antt =====
-- src/notification-alerting/domain: the aggregate alert-dispatch.aggregate.ts with its payload and its
-- stored form. Times are milliseconds, in a time zone whose offset does not change meanwhile; the
-- random id of a new alert is an argument.
use volunteer_training.Prelude.{
  ℕ, ◌+◌, ◌*◌, Bool, Option, none, some, String, ltb, truthy, if◌then◌else◌,
}
use volunteer_training.Notify.Subscription.{Channel}

pub data Severity : Type 0 where
  critical high normal : Severity

pub record AlertPayload : Type 0 where
  pub triggering_event : String
  pub rendered_summary : String
  pub severity : Severity

pub data AlertStatus : Type 0 where
  pending dispatched failed : AlertStatus

pub record AlertDispatch : Type 0 where
  pub id : String
  pub tenant_id : String
  pub user_id : String
  pub event_type : String
  pub payload : AlertPayload
  pub channel : Channel
  pub status : AlertStatus
  pub dispatched_at : ℕ
  pub cool_down_until : ℕ

abbrev or_else {ℓ} : {A : Type ℓ} → Option A → A → A
or_else none a = a
or_else (some b) a = b

-- `id || randomUUID()`
abbrev id_or : Option String → String → String
id_or id random = if truthy id then or_else id random else random

-- The constructor, at a random id and a time.
unfoldable pub alert :
    String
    → String
    → String
    → AlertPayload
    → Channel
    → ℕ
    → Option String
    → AlertStatus
    → Option ℕ
    → String
    → ℕ
    → AlertDispatch
alert tenant_id user_id event_type payload channel cool_down_minutes id status dispatched_at random
      now =
    record {
      id = id_or id random;
      tenant_id = tenant_id;
      user_id = user_id;
      event_type = event_type;
      payload = payload;
      channel = channel;
      status = status;
      dispatched_at = or_else dispatched_at now;
      cool_down_until = or_else dispatched_at now + cool_down_minutes * 60000;
    }

unfoldable pub create :
    String → String → String → AlertPayload → Channel → ℕ → String → ℕ → AlertDispatch
unfolding alert
create tenant_id user_id event_type payload channel cool_down_minutes random now =
    alert tenant_id user_id event_type payload channel cool_down_minutes none pending none random
      now

abbrev pub dispatched_from : AlertStatus → AlertStatus
dispatched_from pending = dispatched
dispatched_from s = s

abbrev pub failed_from : AlertStatus → AlertStatus
failed_from pending = failed
failed_from s = s

unfoldable pub dispatch : AlertDispatch → AlertDispatch
dispatch a = record a { status = dispatched_from a.status }

unfoldable pub mark_failed : AlertDispatch → AlertDispatch
mark_failed a = record a { status = failed_from a.status }

unfoldable pub is_in_cool_down : AlertDispatch → ℕ → Bool
is_in_cool_down a now = ltb now a.cool_down_until

-- The stored form has the same fields as the aggregate; the event type is not empty.
abbrev pub AlertRow : Type 0
AlertRow = AlertDispatch

unfoldable pub to_db : AlertDispatch → AlertRow
to_db a = a

-- The payload is copied field by field, and the cool-down is 0 minutes.
unfoldable pub from_db : AlertRow → String → ℕ → AlertDispatch
unfolding alert
from_db r random now =
    alert r.tenant_id r.user_id r.event_type r.payload r.channel 0 (some r.id) r.status
      (some r.dispatched_at) random now
