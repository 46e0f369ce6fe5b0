-- ===== src/Rollout/Slices.antt =====
-- Which tenants get the canary, and what holds of the fields over every list of calls.
use volunteer_training.Prelude.{
  ◌≡◌, ◌≢◌, ◌⊎◌, refl, inl, inr, true, ◌&&◌, ◌||◌, Bool-cases, none, some, List, [], ◌∷◌, String,
  arith, truthy, contains, is_some, IsDistinct, add-IsDistinct, delete-IsDistinct, if◌then◌else◌,
  ◌===◌, string_eq,
}
use volunteer_training.Prelude.Int.{ℤ, pos, ltb_ℤ, ◌≤ℤ◌}
use volunteer_training.Rollout.Canary.{
  Canary, initial, value_of, tenant_bucket, get_tenant_pipeline_version, Operation,
  promote_canary_to_production, rollback_production, start_canary_rollout,
  increase_canary_percentage, register_beta_tenant, unregister_beta_tenant, change, or_old,
}

-- A tenant gets the canary version, if there is one, exactly when it opted in or its bucket lies
-- below the percentage; every other tenant gets the production version.
pub get_tenant_pipeline_version_iff :
    (s : Canary) (tenant : String)
    → get_tenant_pipeline_version s tenant ≡ (
        if truthy s.canary_version
          && (contains tenant s.beta_tenant_ids
              || ltb_ℤ (pos (tenant_bucket tenant)) s.canary_percentage)
        then value_of s.canary_version
        else s.current_production_version)
unfolding get_tenant_pipeline_version
get_tenant_pipeline_version_iff s tenant = ground arith

-- Raising the percentage takes no tenant off the canary: who got it before the call gets it after.
pub get_tenant_pipeline_version-increase :
    (s t : Canary) (percentage : ℤ) (tenant v : String)
    → s.canary_version ≡ some v
    → s.canary_percentage ≤ℤ percentage
    → change s (increase_canary_percentage percentage) ≡ some t
    → get_tenant_pipeline_version s tenant ≡ v
    → get_tenant_pipeline_version t tenant ≡ v
unfolding get_tenant_pipeline_version change
get_tenant_pipeline_version-increase s t percentage tenant v c le e h = ground arith

-- Promotion gives every tenant the version that was the canary, and a rollback gives every tenant
-- the version that it names, opted in or not.
pub get_tenant_pipeline_version-change :
    (s : Canary) (tenant previous : String)
    → truthy s.canary_version ≡ true
    → (get_tenant_pipeline_version (or_old s (change s promote_canary_to_production)) tenant
        ≡ value_of s.canary_version)
      × (get_tenant_pipeline_version (or_old s (change s (rollback_production previous))) tenant
          ≡ previous)
unfolding get_tenant_pipeline_version change
get_tenant_pipeline_version-change s tenant previous h = (ground arith, ground arith)

-- What holds of the fields between two calls.
pub record IsRollout (s : Canary) : Type 0 where
  pub canary_is_new : s.canary_version ≢ some s.current_production_version
  pub idle_is_zero : (is_some s.canary_version ≡ true) ⊎ (s.canary_percentage ≡ pos 0)
  pub tenants_distinct : IsDistinct s.beta_tenant_ids

pub initial-IsRollout : IsRollout initial
initial-IsRollout = record {
  canary_is_new = λ e. cc e;
  idle_is_zero = inr refl;
  tenants_distinct = tt;
}

-- A call that returns early leaves the fields.
unfoldable pub run : Canary → List Operation → Canary
run s [] = s
run s (o ∷ os) = run (or_old s (change s o)) os

cleared :
    {s : Canary} (v : String)
    → IsRollout s
    → IsRollout (record s {
      current_production_version = v;
      canary_version = none;
      canary_percentage = pos 0;
    })
cleared v h = record {
  canary_is_new = λ e. cc e;
  idle_is_zero = inr refl;
  tenants_distinct = h.tenants_distinct;
}

pub change-IsRollout :
    (s : Canary) (o : Operation) → IsRollout s → IsRollout (or_old s (change s o))
unfolding change
change-IsRollout s promote_canary_to_production h = elim (Bool-cases (truthy s.canary_version)) [
  | inl live ↦ rw live (cleared (value_of s.canary_version) h)
  | inr idle ↦ rw idle h
]
change-IsRollout s (rollback_production v) h = cleared v h
change-IsRollout s (start_canary_rollout v p) h =
    elim (Bool-cases (v === s.current_production_version)) [
      | inl same ↦ rw same h
      | inr new ↦ rw new (record {
        canary_is_new = λ e. ground (arith, string_eq.same_iff v s.current_production_version);
        idle_is_zero = inl refl;
        tenants_distinct = h.tenants_distinct;
      })
    ]
change-IsRollout s (increase_canary_percentage p) h = elim (Bool-cases (truthy s.canary_version)) [
  | inr idle ↦ rw idle h
  | inl live ↦ rw live (elim (Bool-cases (ltb_ℤ (pos 100) p)) [
    | inl above ↦ rw above h
    | inr within ↦ rw within (record {
      canary_is_new = h.canary_is_new;
      idle_is_zero = inl (ground arith);
      tenants_distinct = h.tenants_distinct;
    })
  ])
]
change-IsRollout s (register_beta_tenant t) h = record {
  canary_is_new = h.canary_is_new;
  idle_is_zero = h.idle_is_zero;
  tenants_distinct = add-IsDistinct t s.beta_tenant_ids h.tenants_distinct;
}
change-IsRollout s (unregister_beta_tenant t) h = record {
  canary_is_new = h.canary_is_new;
  idle_is_zero = h.idle_is_zero;
  tenants_distinct = delete-IsDistinct t s.beta_tenant_ids h.tenants_distinct;
}

run_keeps : (s : Canary) (os : List Operation) → IsRollout s → IsRollout (run s os)
unfolding run
run_keeps s [] h = h
run_keeps s (o ∷ os) h = run_keeps (or_old s (change s o)) os (change-IsRollout s o h)

-- After any list of calls on a fresh service, the canary is never the production version, the
-- percentage is 0 where no canary is set, and no tenant is registered twice.
pub run-IsRollout : (os : List Operation) → IsRollout (run initial os)
run-IsRollout os = run_keeps initial os initial-IsRollout
