-- ===== src/Billing/Service.antt =====
-- src/tenant-subscription: the repository of subscriptions, the webhook of the Stripe adapter and the
-- change of a plan by the controller. The table and the plan catalogue are parameters.
use volunteer_training.Prelude.{
  ℕ, Bool, true, false, Option, none, some, List, [], String, truthy, if◌then◌else◌, string_eq,
  ◌===◌,
}
use volunteer_training.Prelude.Result.{Result, ok, throws, ◌>>=◌}
use volunteer_training.Prelude.Store.{Store}
use volunteer_training.Billing.Subscription.{
  Status, Entitlements, DomainEvent, Subscription, change_plan, mark_past_due,
}

-- A row of the table, under its tenant.
pub record SubscriptionRow : Type 0 where
  pub id : String
  pub current_plan_id : String
  pub status : Status
  pub plan_version : ℕ
  pub plan_changed_at : Option ℕ
  pub stripe_customer_id : Option String
  pub stripe_subscription_id : Option String

-- `text || undefined`
abbrev pub or_undefined : Option String → Option String
or_undefined text = if truthy text then text else none

unfoldable pub of_row : String → SubscriptionRow → Subscription
of_row tenant_id r = record {
  id = r.id;
  tenant_id = tenant_id;
  current_plan_id = r.current_plan_id;
  status = r.status;
  plan_version = r.plan_version;
  plan_changed_at = r.plan_changed_at;
  stripe_customer_id = or_undefined r.stripe_customer_id;
  stripe_subscription_id = or_undefined r.stripe_subscription_id;
  uncommitted_events = [];
}

-- What an upsert leaves in the row of a subscription that was read from it, which keeps its id.
unfoldable pub to_row : Subscription → SubscriptionRow
to_row s = record {
  id = s.id;
  current_plan_id = s.current_plan_id;
  status = s.status;
  plan_version = s.plan_version;
  plan_changed_at = s.plan_changed_at;
  stripe_customer_id = s.stripe_customer_id;
  stripe_subscription_id = s.stripe_subscription_id;
}

-- The type of an event and the customer of its invoice.
pub record PaymentEvent : Type 0 where
  pub type : String
  pub customer : String

abbrev pub is_failure : PaymentEvent → Bool
is_failure e = e.type === "invoice.payment_failed"

abbrev pub or_throw {ℓ} : {A : Type ℓ} → String → Option A → Result A
or_throw message none = throws message
or_throw message (some a) = ok a

abbrev pub check_tenant : Bool → Result (Unit {0})
check_tenant true = ok tt
check_tenant false = throws "Tenant mismatch"

module _ (table : Store String SubscriptionRow) where
  open table use {Db, find, write}

  unfoldable pub save : Subscription → Db → Option Db
  save s d = write s.tenant_id (to_row s) d

  abbrev pub mark_found : String → Option SubscriptionRow → Db → Option Db
  mark_found tenant none d = some d
  mark_found tenant (some r) d = save (mark_past_due (of_row tenant r)) d

  -- `none` of an event is one without data; `none` of a result is a throw.
  unfoldable pub handle_payment_webhook : Option PaymentEvent → Db → Option Db
  handle_payment_webhook none d = some d
  handle_payment_webhook (some e) d =
      if is_failure e then mark_found e.customer (find e.customer d) d else some d

  -- The new table and the events that are published.
  unfoldable pub change_plan_of :
      (String → Option Entitlements)
      → String
      → String
      → String
      → ℕ
      → Db
      → Result (Db × List DomainEvent)
  change_plan_of find_plan tenant request_tenant plan_id now d = do
    own ← check_tenant (tenant === request_tenant)
    r ← or_throw "Subscription not found" (find tenant d)
    plan ← or_throw "Plan not found" (find_plan plan_id)
    d' ← or_throw "database" (save (change_plan (of_row tenant r) plan_id plan now) d)
    ok (d', (change_plan (of_row tenant r) plan_id plan now).uncommitted_events)
