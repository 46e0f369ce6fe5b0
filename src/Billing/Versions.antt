-- ===== src/Billing/Versions.antt =====
-- The events that a subscription collects.
use volunteer_training.Prelude.{ℕ, ◌+◌, ◌≡◌, List, [], ◌∷◌, String, string_eq}
use volunteer_training.Billing.Subscription.{
  Entitlements, DomainEvent, plan_entitlements_changed, tenant_suspended, Subscription, change_plan,
  mark_past_due, suspend, unsuspend,
}

-- The calls that a client may make.
pub data Call : Type 0 where
  changes : String → Entitlements → ℕ → Call
  misses_payment unsuspends : Call
  suspends : String → Call

abbrev pub step : Call → Subscription → Subscription
step (changes plan entitlements now) s = change_plan s plan entitlements now
step misses_payment s = mark_past_due s
step unsuspends s = unsuspend s
step (suspends reason) s = suspend s reason

abbrev pub run : List Call → Subscription → Subscription
run [] s = s
run (c ∷ cs) s = run cs (step c s)

-- From a version and a plan, some events, in their order, announce each next version once, and end
-- at a version and a plan.
abbrev pub Announce : ℕ → String → List DomainEvent → ℕ → String → Type 0
Announce v p [] w q = (v ≡ w) × (p ≡ q)
Announce v p (plan_entitlements_changed tenant plan entitlements version ∷ es) w q =
    (version ≡ v + 1) × Announce version plan es w q
Announce v p (tenant_suspended tenant reason ∷ es) w q = Announce v p es w q

module _ (v : ℕ) (p : String) where
  abbrev Holds : Subscription → Type 0
  Holds s = Announce v p s.uncommitted_events s.plan_version s.current_plan_id
