-- ===== src/Billing/Tests.antt =====
-- The examples of plans, payments and usage.
use volunteer_training.Prelude.{
  ℕ, ◌+◌, ◌≡◌, refl, false, Option, none, some, List, [], ◌∷◌, String, length, if◌then◌else◌,
  string_eq,
}
use volunteer_training.Prelude.Int.{ℤ, pos, negsuc}
use volunteer_training.Prelude.Json.{Json}
use volunteer_training.Prelude.Result.{ok}
use volunteer_training.Prelude.Store.{Store, function_store, update_at}
use volunteer_training.Billing.Subscription.{
  active, Entitlements, Subscription, change_plan, mark_past_due,
}
use volunteer_training.Billing.Versions.{Call, changes, misses_payment, run}
use volunteer_training.Billing.Meter.{UsageMeter}
use volunteer_training.Billing.Overage as Usage
use volunteer_training.Billing.Service.{
  SubscriptionRow, of_row, to_row, PaymentEvent, save, handle_payment_webhook, change_plan_of,
}
use volunteer_training.Billing.Webhook.{marked, change_plan_of_other}

abbrev basic : Entitlements
basic = record { mailbox_limit = 3; llm_tier_ceiling = "small"; features = Json.null }

abbrev row : SubscriptionRow
row = record {
  id = "s1";
  current_plan_id = "free";
  status = active;
  plan_version = 1;
  plan_changed_at = none;
  stripe_customer_id = some "cus_1";
  stripe_subscription_id = none;
}

abbrev subscription : Subscription
subscription = record {
  id = "s1";
  tenant_id = "t";
  current_plan_id = "free";
  status = active;
  plan_version = 1;
  plan_changed_at = none;
  stripe_customer_id = some "cus_1";
  stripe_subscription_id = none;
  uncommitted_events = [];
}

abbrev calls : List Call
calls = changes "pro" basic 5 ∷ misses_payment ∷ changes "pro" basic 6 ∷ changes "free" basic 7 ∷ []

abbrev meter : UsageMeter
meter = record {
  id = "m1";
  tenant_id = "t";
  meter_type = "messages";
  billing_period_start = 0;
  billing_period_end = 9;
  usage_count = pos 8;
  overage_threshold = pos 10;
  overage_detected = false;
  last_incremented_at = none;
  uncommitted_events = [];
}

-- The threshold is reached, left and reached again.
abbrev amounts : List (ℤ × ℕ)
amounts = (pos 2, 1) ∷ (negsuc 3, 2) ∷ (pos 7, 3) ∷ []

overage-run_example :
    ((Usage.run amounts meter).overage_detected ≡ Usage.is_reached (pos 10) (pos 8) amounts)
    × ((length (Usage.run amounts meter).uncommitted_events
          ≡ 0 + (if Usage.is_reached (pos 10) (pos 8) amounts then 1 else 0))
        × ((Usage.run amounts meter).usage_count ≡ Usage.sum_of (pos 8) amounts))
overage-run_example = Usage.overage-run amounts meter refl

abbrev table : Store String SubscriptionRow
table = function_store

abbrev two_rows : String → Option SubscriptionRow
two_rows = update_at "t" row (update_at "cus_9" row (λ k. none))

abbrev failure : PaymentEvent
failure = record { type = "invoice.payment_failed"; customer = "cus_9" }

webhook_lem :
    handle_payment_webhook table (some failure) two_rows
    ≡ some (update_at "cus_9" (marked "cus_9" row) two_rows)
unfolding handle_payment_webhook save mark_past_due of_row to_row
webhook_lem = refl

abbrev plans : String → Option Entitlements
plans plan = some basic

abbrev changed : Subscription
changed = change_plan (of_row "t" row) "pro" basic 5

change_lem :
    change_plan_of table plans "t" "t" "pro" 5 two_rows
    ≡ ok (update_at "t" (to_row changed) two_rows, changed.uncommitted_events)
unfolding change_plan_of save change_plan of_row to_row
change_lem = refl

change_plan_of_other_example :
    (subscription.tenant_id ≡ "t")
    × (update_at "t" (to_row changed) two_rows "cus_9" ≡ two_rows "cus_9")
change_plan_of_other_example =
    change_plan_of_other table plans "t" "t" "pro" 5 two_rows
      (update_at "t" (to_row changed) two_rows) changed.uncommitted_events "cus_9" change_lem refl
