-- ===== src/Billing/Meter.antt =====
-- src/tenant-subscription/domain/aggregates/usage-meter.aggregate.ts. A `bigint` is an integer, and
-- so is the amount, since `BigInt` throws on any other number; `Number` of a count is exact up to
-- 2^53.
use volunteer_training.Prelude.{
  ℕ, Bool, true, not, ◌&&◌, Option, some, List, [], ◌∷◌, ◌++◌, String, if◌then◌else◌,
}
use volunteer_training.Prelude.Int.{ℤ, ◌+ℤ◌, leb_ℤ}

-- The event of an overage: its tenant, meter, period, usage and threshold.
pub data DomainEvent : Type 0 where
  usage_overage_detected : String → String → ℕ → ℕ → ℤ → ℤ → DomainEvent

pub record UsageMeter : Type 0 where
  pub id : String
  pub tenant_id : String
  pub meter_type : String
  pub billing_period_start : ℕ
  pub billing_period_end : ℕ
  pub usage_count : ℤ
  pub overage_threshold : ℤ
  pub overage_detected : Bool
  pub last_incremented_at : Option ℕ
  pub uncommitted_events : List DomainEvent

abbrev pub overage_of : UsageMeter → ℤ → DomainEvent
overage_of m new_count =
    usage_overage_detected m.tenant_id m.meter_type m.billing_period_start m.billing_period_end
      new_count m.overage_threshold

unfoldable pub atomic_increment : UsageMeter → ℤ → ℕ → UsageMeter
atomic_increment m amount now =
    let new_count = m.usage_count +ℤ amount in
    let counted = record m { usage_count = new_count; last_incremented_at = some now } in
    if not m.overage_detected && leb_ℤ m.overage_threshold new_count
    then record counted {
      overage_detected = true;
      uncommitted_events = m.uncommitted_events ++ overage_of m new_count ∷ [];
    }
    else counted
