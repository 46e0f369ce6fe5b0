-- ===== src/Rollout/Tests.antt =====
-- The rollout services on concrete tenants and calls.
use volunteer_training.Prelude.{
  ◌%◌, ◌≤◌, ◌<◌, ◌≡◌, refl, ◌&&◌, ◌||◌, none, some, List, [], ◌∷◌, truthy, contains, ltb, add,
  if◌then◌else◌, string_eq,
}
use volunteer_training.Prelude.Int.{pos, ltb_ℤ, ◌+ℤ◌, ◌-ℤ◌, ◌*ℤ◌}
use volunteer_training.Prelude.Store.{RowTable, option_table}
use volunteer_training.Prelude.Text.{utf16}
use volunteer_training.Rollout.Hash.{
  hash_tenant_id, hash_round, to_int32, to_u32, from_u32, abs, polynomial,
  hash_tenant_id-polynomial,
}
use volunteer_training.Rollout.Canary.{
  Canary, CanaryRow, initial, value_of, tenant_bucket, get_tenant_pipeline_version, Operation,
  promote_canary_to_production, start_canary_rollout, increase_canary_percentage,
  register_beta_tenant, change, on_module_init,
}
use volunteer_training.Rollout.Slices.{get_tenant_pipeline_version_iff, run}
use volunteer_training.Rollout.Restart.{perform_all, on_module_init-perform_all}
use volunteer_training.Rollout.Degradation.{healthy}
use volunteer_training.Rollout.Outages
use volunteer_training.Rollout.Outages.{
  failure, success, retry, streak, last_time, run-streak, get_time_until_retry_lem, step-alerts,
}

-- The second hash is negative before its magnitude is taken.
hashes : (hash_tenant_id (utf16 "ab") ≡ 3105) × (hash_tenant_id (utf16 "tenant-1") ≡ 1306694706)
unfolding hash_tenant_id hash_round to_int32 to_u32 from_u32 utf16 ◌+ℤ◌ ◌-ℤ◌ ◌*ℤ◌
hashes = (refl, refl)

hash_tenant_id-polynomial_example :
    (hash_tenant_id (utf16 "acme") ≡ abs (from_u32 (polynomial 0 (utf16 "acme") % 4294967296)))
    × (hash_tenant_id (utf16 "acme") ≤ 2147483648)
    × (hash_tenant_id (utf16 "acme") % 100 < 100)
hash_tenant_id-polynomial_example = hash_tenant_id-polynomial (utf16 "acme")

abbrev canary : Canary
canary = record {
  current_production_version = "v1";
  canary_version = some "v2";
  canary_percentage = pos 50;
  beta_tenant_ids = "t" ∷ [];
}

get_tenant_pipeline_version_iff_example : get_tenant_pipeline_version canary "acme" ≡ (
    if truthy canary.canary_version
      && (contains "acme" canary.beta_tenant_ids
          || ltb_ℤ (pos (tenant_bucket "acme")) canary.canary_percentage)
    then value_of canary.canary_version
    else canary.current_production_version)
get_tenant_pipeline_version_iff_example = get_tenant_pipeline_version_iff canary "acme"

abbrev rollout : List Operation
rollout =
    start_canary_rollout "v2.0.0" (pos 5)
    ∷ register_beta_tenant "t"
    ∷ register_beta_tenant "t"
    ∷ increase_canary_percentage (pos 101)
    ∷ promote_canary_to_production
    ∷ start_canary_rollout "v2.0.0" (pos 5)
    ∷ []

rollout_lem : run initial rollout ≡ record {
  current_production_version = "v2.0.0";
  canary_version = none;
  canary_percentage = pos 0;
  beta_tenant_ids = "t" ∷ [];
}
unfolding run change add contains
rollout_lem = refl

abbrev table : RowTable CanaryRow
table = option_table

on_module_init-perform_all_example :
    on_module_init table initial (perform_all table (initial, some initial) rollout).1
    ≡ some (perform_all table (initial, some initial) rollout)
unfolding on_module_init
on_module_init-perform_all_example =
    on_module_init-perform_all table none rollout {p = (initial, some initial)}
      ((λ f d. (_, refl)), (λ r d. (_, refl))) refl refl

abbrev outage : List Outages.Call
outage = failure 1 ∷ success ∷ failure 2 ∷ failure 3 ∷ failure 4 ∷ failure 5 ∷ failure 6 ∷ []

run-streak_example :
    ((Outages.run healthy outage).llm_provider_healthy ≡ ltb (streak 0 outage) 5)
    × ((Outages.run healthy outage).consecutive_failures ≡ streak 0 outage)
    × ((Outages.run healthy outage).last_llm_failure ≡ last_time none outage)
run-streak_example = run-streak outage
