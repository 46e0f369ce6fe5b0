-- ===== src/Billing/Webhook.antt =====
-- Whose subscription a payment and a request change.
use volunteer_training.Prelude.{
  ℕ, ◌≡◌, refl, sym, ap, ◌∙◌, Bool, true, false, ◌&&◌, Option, none, some, List, String, arith,
  if◌then◌else◌, string_eq, ◌===◌,
}
use text.Mathlib.TextEquality.{eq_iff}
use volunteer_training.Prelude.Result.{Result, ok, >>=-ok}
use volunteer_training.Prelude.Store.{Store, map_row}
use volunteer_training.Billing.Subscription.{
  Entitlements, DomainEvent, Subscription, change_plan, mark_past_due,
}
use volunteer_training.Billing.Service.{
  SubscriptionRow, of_row, to_row, PaymentEvent, is_failure, or_throw, check_tenant, save,
  mark_found, handle_payment_webhook, change_plan_of,
}

abbrev pub marked : String → SubscriptionRow → SubscriptionRow
marked tenant r = to_row (mark_past_due (of_row tenant r))

if_absent :
    {A : Type 0} (f : A → A) (b : Bool) (x : Option A)
    → (b ≡ true → x ≡ none)
    → x ≡ (if b then map_row f x else x)
if_absent f false x h = refl
if_absent f true x h = h refl ∙ ap (map_row f) (sym (h refl))

other_row :
    {A : Type 0} (id own j : String) (x y : A)
    → id ≡ own
    → own === j ≡ false
    → (if id === j then x else y) ≡ y
other_row id own j x y e n = rw (e, n) refl

if_present :
    {A : Type 0} (f : A → A) (b : Bool) (x : Option A) (a : A)
    → (b ≡ true → x ≡ some a)
    → ◌≡◌ {A = Option A} (if b then some (f a) else x) (if b then map_row f x else x)
if_present f false x a h = refl
if_present f true x a h = ap (map_row f) (sym (h refl))

module _ (table : Store String SubscriptionRow) where
  open table use {Db, find, write, find_written}

  abbrev db_of : Db → Option Db → Db
  db_of d none = d
  db_of d (some d') = d'

  saved_find :
      (s : Subscription) (d d' : Db) (j : String)
      → save table s d ≡ some d'
      → find j d' ≡ (if s.tenant_id === j then some (to_row s) else find j d)
  unfolding save
  saved_find s d d' j h = find_written s.tenant_id j (to_row s) d d' h

  mark_found_find :
      (k : String) (o : Option SubscriptionRow) (d d' : Db) (j : String)
      → find k d ≡ o
      → mark_found table k o d ≡ some d'
      → find j d' ≡ (if k === j then map_row (marked k) (find j d) else find j d)
  unfolding mark_past_due of_row
  mark_found_find k none d d' j e h =
      ap (λ x. find j (db_of d x)) (sym h)
      ∙ if_absent (marked k) (k === j) (find j d)
          (λ same. ap (λ x. find x d) (sym ((eq_iff k j).0 same)) ∙ e)
  mark_found_find k (some r) d d' j e h =
      saved_find (mark_past_due (of_row k r)) d d' j h
      ∙ if_present (marked k) (k === j) (find j d) r
          (λ same. ap (λ x. find x d) (sym ((eq_iff k j).0 same)) ∙ e)

  webhook_if :
      (b : Bool) (k : String) (d d' : Db) (j : String)
      → (if b then mark_found table k (find k d) d else some d) ≡ some d'
      → find j d' ≡ (if b && k === j then map_row (marked k) (find j d) else find j d)
  webhook_if false k d d' j h = ap (λ x. find j (db_of d x)) (sym h)
  webhook_if true k d d' j h = mark_found_find k _ d d' j refl h

  -- A failed payment marks as past due the subscription whose tenant id is the customer's id in the
  -- billing provider, and leaves every other row as it is; any other event leaves the table.
  pub handle_payment_webhook_find :
      (e : PaymentEvent) (d d' : Db) (j : String)
      → handle_payment_webhook table (some e) d ≡ some d'
      → find j d' ≡ (
          if is_failure e && e.customer === j
          then map_row (marked e.customer) (find j d)
          else find j d)
  unfolding handle_payment_webhook
  handle_payment_webhook_find e d d' j h = webhook_if (is_failure e) e.customer d d' j h

  checked : (b : Bool) {u : Unit {0}} → check_tenant b ≡ ok u → b ≡ true
  checked true h = refl
  checked false h = cc

  returned :
      {d₁ d' : Db} {es events : List DomainEvent}
      → ◌≡◌ {A = Result (Db × List DomainEvent)} (ok (d₁, es)) (ok (d', events))
      → d' ≡ d₁
  returned h = cc

  thrown_not : (m : String) (x : Option Db) {d' : Db} → or_throw m x ≡ ok d' → x ≡ some d'
  thrown_not m none h = cc
  thrown_not m (some d₁) h = cc

  changed_tenant :
      (tenant : String) (r : SubscriptionRow) (plan_id : String) (plan : Entitlements) (now : ℕ)
      → (change_plan (of_row tenant r) plan_id plan now).tenant_id ≡ tenant
  unfolding change_plan of_row
  changed_tenant tenant r plan_id plan now = ground arith

  -- A plan change that returns was asked for by the tenant itself, and has left the row of every
  -- other tenant as it was.
  pub change_plan_of_other :
      (find_plan : String → Option Entitlements) (tenant request_tenant plan_id : String) (now : ℕ)
      (d d' : Db) (events : List DomainEvent) (j : String)
      → change_plan_of table find_plan tenant request_tenant plan_id now d ≡ ok (d', events)
      → request_tenant === j ≡ false
      → (tenant ≡ request_tenant) × (find j d' ≡ find j d)
  unfolding change_plan_of
  change_plan_of_other find_plan tenant request_tenant plan_id now d d' events j h n =
      let (own, (same, h₁)) = >>=-ok (check_tenant (tenant === request_tenant)) _ h in
      let (r, (found, h₂)) = >>=-ok (or_throw "Subscription not found" (find tenant d)) _ h₁ in
      let (plan, (listed, h₃)) = >>=-ok (or_throw "Plan not found" (find_plan plan_id)) _ h₂ in
      let (d₁, (stored, h₄)) =
        >>=-ok (or_throw "database" (save table (change_plan (of_row tenant r) plan_id plan now) d))
          _ h₃ in
      let own_tenant =
        (eq_iff tenant request_tenant).0 (checked (tenant === request_tenant) same) in
      let s = change_plan (of_row tenant r) plan_id plan now in
      (
        own_tenant,
        ap (find j) (returned h₄)
            ∙ saved_find s d d₁ j (thrown_not _ (save table s d) stored)
            ∙ other_row s.tenant_id request_tenant j _ _
                (changed_tenant tenant r plan_id plan now ∙ own_tenant) n,
      )
