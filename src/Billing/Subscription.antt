-- ===== src/Billing/Subscription.antt =====
-- src/tenant-subscription/domain/aggregates/subscription.aggregate.ts
use volunteer_training.Prelude.{
  ℕ, ◌+◌, Option, some, List, [], ◌∷◌, ◌++◌, String, if◌then◌else◌, string_eq, ◌===◌,
}
use volunteer_training.Prelude.Json.{Json}

pub data Status : Type 0 where
  active past_due suspended canceled : Status

pub record Entitlements : Type 0 where
  pub mailbox_limit : ℕ
  pub llm_tier_ceiling : String
  pub features : Json

pub data DomainEvent : Type 0 where
  plan_entitlements_changed : String → String → Entitlements → ℕ → DomainEvent
  tenant_suspended : String → String → DomainEvent

pub record Subscription : Type 0 where
  pub id : String
  pub tenant_id : String
  pub current_plan_id : String
  pub status : Status
  pub plan_version : ℕ
  pub plan_changed_at : Option ℕ
  pub stripe_customer_id : Option String
  pub stripe_subscription_id : Option String
  pub uncommitted_events : List DomainEvent

unfoldable pub change_plan : Subscription → String → Entitlements → ℕ → Subscription
change_plan s new_plan_id entitlements now =
    if s.current_plan_id === new_plan_id then s else record s {
      current_plan_id = new_plan_id;
      plan_version = s.plan_version + 1;
      plan_changed_at = some now;
      uncommitted_events =
          s.uncommitted_events
          ++ plan_entitlements_changed s.tenant_id new_plan_id entitlements (s.plan_version + 1)
            ∷ [];
    }

unfoldable pub mark_past_due : Subscription → Subscription
mark_past_due s = record s {
  status = past_due;
  uncommitted_events = s.uncommitted_events ++ tenant_suspended s.tenant_id "payment_failed" ∷ [];
}

unfoldable pub suspend : Subscription → String → Subscription
suspend s reason = record s {
  status = suspended;
  uncommitted_events = s.uncommitted_events ++ tenant_suspended s.tenant_id reason ∷ [];
}

abbrev pub unsuspended : Status → Status
unsuspended suspended = active
unsuspended s = s

unfoldable pub unsuspend : Subscription → Subscription
unsuspend s = record s { status = unsuspended s.status }

unfoldable pub clear_uncommitted_events : Subscription → Subscription
clear_uncommitted_events s = record s { uncommitted_events = [] }
