-- ===== src/Api/Settings.antt =====
-- src/api/v1/controllers/tenant-config.controller.ts. The tables are an interface; a throw of theirs
-- is `none`.
use volunteer_training.Prelude.{
  ℕ, ◌≡◌, Bool, true, false, not, ◌&&◌, Option, none, some, List, [], ◌∷◌, map, String, ◌===◌,
  string_eq, any_of, if◌then◌else◌,
}
use volunteer_training.Prelude.Attempt.{◌>>=◌}
use volunteer_training.Prelude.Result.{Result, ok, throws}

-- The columns of a sender's profile that the controller reads and writes.
pub record ProfileColumns : Type 0 where
  pub tenant_id : String
  pub sender_address : String
  pub is_vip : Bool
  pub vip_auto_promoted : Bool

pub record ProfileTable : Type 1 where
  pub Db : Type 0
  pub rows : Db → List ProfileColumns
  -- `updateMany`
  pub update_many : (ProfileColumns → Bool) → (ProfileColumns → ProfileColumns) → Db → Option Db
  -- An update that happens changes just the rows that it asks for.
  pub rows_updated :
      (p : ProfileColumns → Bool) (f : ProfileColumns → ProfileColumns) (d d' : Db)
      → update_many p f d ≡ some d'
      → rows d' ≡ map (λ r. if p r then f r else r) (rows d)

abbrev pub is_sender : String → String → ProfileColumns → Bool
is_sender tenant address r = r.tenant_id === tenant && r.sender_address === address

abbrev pub as_vip : ProfileColumns → ProfileColumns
as_vip r = record r { is_vip = true; vip_auto_promoted = false }

-- The response, with the tier of the tenant's plan.
pub record TenantConfiguration : Type 0 where
  pub tenant_id : String
  pub plan_tier : String
  pub vip_list : List String
  pub llm_budget_soft_limit : ℕ
  pub llm_budget_hard_limit : ℕ
  pub digest_frequency : String

abbrev pub tier_or_default : Option String → String
tier_or_default none = "tier-1-only"
tier_or_default (some t) = if t === "" then "tier-1-only" else t

module _ (table : ProfileTable) where
  open table use {Db, rows, update_many}

  -- The entries are the addresses.
  unfoldable pub update_vip_list : String → List String → Db → Option Db
  update_vip_list tenant [] d = some d
  update_vip_list tenant (address ∷ entries) d =
      update_many (is_sender tenant address) as_vip d >>= update_vip_list tenant entries

  abbrev pub vips_of : String → List ProfileColumns → List String
  vips_of tenant [] = []
  vips_of tenant (r ∷ rs) =
      let rest = vips_of tenant rs in
      if r.tenant_id === tenant && r.is_vip then r.sender_address ∷ rest else rest

  -- The tenant is there or not; `none` stands for a subscription that is missing.
  unfoldable pub get_tenant_configuration :
      String → Bool → Option String → Db → Result TenantConfiguration
  get_tenant_configuration tenant exists plan_tier d =
      if not exists
      then throws "Tenant not found"
      else ok (record {
        tenant_id = tenant;
        plan_tier = tier_or_default plan_tier;
        vip_list = vips_of tenant (rows d);
        llm_budget_soft_limit = 1000;
        llm_budget_hard_limit = 2000;
        digest_frequency = "daily";
      })

-- `true` stands for success; the setting itself is not stored.
unfoldable pub update_digest_frequency : String → Result Bool
update_digest_frequency frequency =
    if any_of (λ f. f === frequency) ("daily" ∷ "weekly" ∷ "off" ∷ [])
    then ok true
    else throws "Invalid digest frequency"
