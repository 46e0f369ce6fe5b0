-- ===== src/Rollout/Canary.antt =====
-- src/classification/services/canary-rollout.service.ts. A call takes the service's fields and the
-- database, and returns both; logging is left out. `none` is a call that throws.
use volunteer_training.Prelude.{
  ℕ, ◌%◌, not, ◌&&◌, Option, none, some, List, [], String, truthy, contains, add, delete, add_all,
  length, if◌then◌else◌, ◌===◌, string_eq,
}
use volunteer_training.Prelude.Int.{ℤ, pos, ltb_ℤ}
use volunteer_training.Prelude.Attempt.{◌>>=◌}
use volunteer_training.Prelude.Store.{RowTable}
use volunteer_training.Prelude.Text.{utf16}
use volunteer_training.Rollout.Hash.{hash_tenant_id}

pub record Canary : Type 0 where
  pub current_production_version : String
  pub canary_version : Option String
  pub canary_percentage : ℤ
  pub beta_tenant_ids : List String

-- The persisted row has the same columns.
abbrev pub CanaryRow : Type 0
CanaryRow = Canary

abbrev pub initial : Canary
initial = record {
  current_production_version = "v1.0.0";
  canary_version = none;
  canary_percentage = pos 0;
  beta_tenant_ids = [];
}

abbrev pub value_of : Option String → String
value_of none = ""
value_of (some s) = s

unfoldable pub tenant_bucket : String → ℕ
tenant_bucket tenant = hash_tenant_id (utf16 tenant) % 100

unfoldable pub get_tenant_pipeline_version : Canary → String → String
get_tenant_pipeline_version s tenant =
    if contains tenant s.beta_tenant_ids && truthy s.canary_version
    then value_of s.canary_version
    else if truthy s.canary_version
        && ltb_ℤ (pos 0) s.canary_percentage
        && ltb_ℤ (pos (tenant_bucket tenant)) s.canary_percentage
    then value_of s.canary_version
    else s.current_production_version

-- The calls that change the fields; each of them ends in `saveState` where it changes something.
pub data Operation : Type 0 where
  promote_canary_to_production : Operation
  rollback_production : String → Operation
  start_canary_rollout : String → ℤ → Operation
  increase_canary_percentage : ℤ → Operation
  register_beta_tenant : String → Operation
  unregister_beta_tenant : String → Operation

-- The fields after a call, or `none` where it returns early.
unfoldable pub change : Canary → Operation → Option Canary
change s promote_canary_to_production =
    if not (truthy s.canary_version)
    then none
    else some (record s {
      current_production_version = value_of s.canary_version;
      canary_version = none;
      canary_percentage = pos 0;
    })
change s (rollback_production previous) = some (record s {
  current_production_version = previous;
  canary_version = none;
  canary_percentage = pos 0;
})
change s (start_canary_rollout version percentage) =
    if version === s.current_production_version
    then none
    else some (record s { canary_version = some version; canary_percentage = percentage })
change s (increase_canary_percentage percentage) =
    if not (truthy s.canary_version)
    then none
    else if ltb_ℤ (pos 100) percentage
    then none
    else some (record s { canary_percentage = percentage })
change s (register_beta_tenant tenant) =
    some (record s { beta_tenant_ids = add tenant s.beta_tenant_ids })
change s (unregister_beta_tenant tenant) =
    some (record s { beta_tenant_ids = delete tenant s.beta_tenant_ids })

-- `getStatus`
pub record CanaryStatus : Type 0 where
  pub production_version : String
  pub canary_version : Option String
  pub canary_percentage : ℤ
  pub beta_tenant_count : ℕ

unfoldable pub get_status : Canary → CanaryStatus
get_status s = record {
  production_version = s.current_production_version;
  canary_version = s.canary_version;
  canary_percentage = s.canary_percentage;
  beta_tenant_count = length s.beta_tenant_ids;
}

abbrev pub or_old {ℓ} : {A : Type ℓ} → A → Option A → A
or_old a none = a
or_old a (some b) = b

module _ (table : RowTable CanaryRow) where
  open table use {Db, first, create, update_all}

  -- A failure to save is logged and otherwise ignored.
  unfoldable pub save_state : Canary → Db → Db
  save_state s db = or_old db (update_all (λ _. s) db)

  -- What a call leaves: nothing new where it returned early, else the new fields, saved.
  unfoldable pub commit : Canary → Db → Option Canary → Canary × Db
  commit s db none = (s, db)
  commit s db (some t) = (t, save_state t db)

  unfoldable pub perform : Canary × Db → Operation → Canary × Db
  unfolding commit
  perform (s, db) o = commit s db (change s o)

  -- What the rows give: the fields of the first one, or fresh ones and a new row.
  unfoldable pub restore : Canary → Db → Option CanaryRow → Option (Canary × Db)
  restore s db (some row) =
      some (record row { beta_tenant_ids = add_all row.beta_tenant_ids [] }, db)
  restore s db none = do db' ← create initial db; some (s, db')

  unfoldable pub on_module_init : Canary → Db → Option (Canary × Db)
  unfolding restore
  on_module_init s db = restore s db (first db)

  unfoldable pub on_module_destroy : Canary → Db → Db
  unfolding save_state
  on_module_destroy s db = save_state s db
