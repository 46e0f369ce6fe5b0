-- ===== src/Ingestion/Limiter.antt =====
-- src/mailbox-ingestion/infrastructure/adapters/rate-limiter.adapter.ts
use Prim.Native.String.{◌++◌}
use volunteer_training.Prelude.{
  ℕ, ◌+◌, Bool, Option, none, some, List, [], ◌∷◌, String, leb, nat_beq, if◌then◌else◌, ◌===◌,
  string_eq, lookup, insert,
}

-- The counters, the handles that the adapter keeps to clear, and the timers that will still go off.
pub record RateLimiter : Type 0 where
  pub counters : List (String × ℕ)
  pub reset_timers : List String
  pub running : List String

abbrev pub new_limiter : RateLimiter
new_limiter = record { counters = []; reset_timers = []; running = [] }

abbrev pub rate_key : String → String → String → String
rate_key platform tenant_id mailbox_id =
    "ratelimit:" ++ platform ++ ":" ++ tenant_id ++ ":" ++ mailbox_id

-- `limits[platform] || 100`, for a platform that is no property of every object.
abbrev pub limit_of : String → ℕ
limit_of platform =
    if platform === "gmail" then 250 else if platform === "outlook" then 333 else 100

abbrev pub or_zero : Option ℕ → ℕ
or_zero none = 0
or_zero (some n) = n

unfoldable pub get_current_usage : RateLimiter → String → String → String → ℕ
get_current_usage r platform tenant_id mailbox_id =
    or_zero (lookup (rate_key platform tenant_id mailbox_id) r.counters)

-- The call with its answer; `units` is not read.
unfoldable pub enforce_quota : RateLimiter → String → String → String → ℕ → RateLimiter × Bool
enforce_quota r platform tenant_id mailbox_id units =
    let key = rate_key platform tenant_id mailbox_id in
    let current = or_zero (lookup key r.counters) + 1 in
    let counted = record r { counters = insert key current r.counters } in
    let timed =
      if nat_beq current 1
      then record counted { reset_timers = key ∷ r.reset_timers; running = key ∷ r.running }
      else counted in
    (timed, leb current (limit_of platform))

abbrev pub without : String → List String → List String
without k [] = []
without k (j ∷ js) = if j === k then js else j ∷ without k js

-- `counters.delete(key)`; a map has at most one entry of a key.
unfoldable pub erase : String → List (String × ℕ) → List (String × ℕ)
erase k [] = []
erase k ((j, n) ∷ m) = let rest = erase k m in if j === k then rest else (j, n) ∷ rest

-- A timer goes off.
unfoldable pub fire : RateLimiter → String → RateLimiter
unfolding erase
fire r key = record r { counters = erase key r.counters; running = without key r.running }

unfoldable pub on_module_destroy : RateLimiter → RateLimiter
on_module_destroy r = record r { running = [] }
