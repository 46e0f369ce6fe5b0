-- ===== src/Rollout/Degradation.antt =====
-- src/classification/services/graceful-degradation.service.ts. Times are milliseconds; the alerts
-- that the service emits are returned, its log lines are left out. The periodic check only logs.
use volunteer_training.Prelude.{
  ℕ, ◌+◌, ◌-◌, Bool, true, false, not, ◌||◌, Option, none, some, List, [], ◌∷◌, leb, is_some,
  if◌then◌else◌,
}
use volunteer_training.Prelude.Attempt.{◌>>=◌}
use volunteer_training.Prelude.Store.{RowTable}

pub record Degradation : Type 0 where
  pub llm_provider_healthy : Bool
  pub last_llm_failure : Option ℕ
  pub consecutive_failures : ℕ

abbrev pub failure_threshold : ℕ
failure_threshold = 5

abbrev pub degradation_cooldown_ms : ℕ
degradation_cooldown_ms = 60000

abbrev pub healthy : Degradation
healthy = record { llm_provider_healthy = true; last_llm_failure = none; consecutive_failures = 0 }

pub data Alert : Type 0 where
  degradation_alert recovery_alert : Alert

unfoldable pub record_llm_failure : Degradation → ℕ → Degradation × List Alert
record_llm_failure s now =
    let failures = s.consecutive_failures + 1 in
    let failed = record s { consecutive_failures = failures; last_llm_failure = some now } in
    if leb failure_threshold failures
    then (record failed { llm_provider_healthy = false }, degradation_alert ∷ [])
    else (failed, [])

unfoldable pub record_llm_success : Degradation → Degradation × List Alert
record_llm_success s = (healthy, if not s.llm_provider_healthy then recovery_alert ∷ [] else [])

unfoldable pub retry_llm_provider : Degradation → Degradation
retry_llm_provider s = healthy

unfoldable pub is_degraded_mode : Degradation → Bool
is_degraded_mode s = not s.llm_provider_healthy

-- `Math.max(0, cooldown - (now - last))`, also where the clock reads less than `last`.
abbrev pub remaining : Option ℕ → ℕ → ℕ
remaining none now = 0
remaining (some last) now = degradation_cooldown_ms + last - now

unfoldable pub get_time_until_retry : Degradation → ℕ → ℕ
get_time_until_retry s now =
    if s.llm_provider_healthy || not (is_some s.last_llm_failure)
    then 0
    else remaining s.last_llm_failure now

-- `getStatus`
pub record DegradationStatus : Type 0 where
  pub is_healthy : Bool
  pub is_degraded : Bool
  pub consecutive_failures : ℕ
  pub last_failure : Option ℕ
  pub time_until_retry : ℕ

unfoldable pub get_status : Degradation → ℕ → DegradationStatus
unfolding get_time_until_retry
get_status s now = record {
  is_healthy = s.llm_provider_healthy;
  is_degraded = not s.llm_provider_healthy;
  consecutive_failures = s.consecutive_failures;
  last_failure = s.last_llm_failure;
  time_until_retry = get_time_until_retry s now;
}

module _ (table : RowTable Degradation) where
  open table use {Db, first, create, update_all}

  -- A failure to save is logged and otherwise ignored.
  unfoldable pub save_state : Degradation → Db → Db
  save_state s db = elim (update_all (λ _. s) db) [ none ↦ db | some db' ↦ db' ]

  unfoldable pub restore : Degradation → Db → Option Degradation → Option (Degradation × Db)
  restore s db (some row) = some (row, db)
  restore s db none = do db' ← create healthy db; some (s, db')

  unfoldable pub on_module_init : Degradation → Db → Option (Degradation × Db)
  unfolding restore
  on_module_init s db = restore s db (first db)
