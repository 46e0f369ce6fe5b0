-- ===== src/Ingestion/Quota.antt =====
-- What the limiter answers after any history of calls and timers.
use volunteer_training.Prelude.{
  ℕ, ◌+◌, ◌≡◌, refl, sym, ap, ◌∙◌, Bool, Bool-cases, inl, inr, true, false, ◌&&◌, ◌-◌, ltb, leb,
  nat_beq, arith, some, List, [], ◌∷◌, String, string_eq, if◌then◌else◌, ◌===◌, lookup, insert,
  lookup-insert,
}
use volunteer_training.Ingestion.Limiter.{
  RateLimiter, new_limiter, rate_key, limit_of, or_zero, erase, without, enforce_quota,
  get_current_usage, fire,
}

pub data Event : Type 0 where
  called : String → String → String → ℕ → Event
  fired : String → Event

abbrev pub step : Event → RateLimiter → RateLimiter
step (called p t m units) r = (enforce_quota r p t m units).0
step (fired key) r = fire r key

abbrev pub run : List Event → RateLimiter → RateLimiter
run [] r = r
run (e ∷ es) r = run es (step e r)

-- The calls of a key since its timer went off for the last time, after `n` earlier ones.
abbrev pub count : String → Event → ℕ → ℕ
count k (called p t m units) n = (if rate_key p t m === k then 1 else 0) + n
count k (fired key) n = if key === k then 0 else n

abbrev pub calls_since : String → List Event → ℕ → ℕ
calls_since k [] n = n
calls_since k (e ∷ es) n = calls_since k es (count k e n)

abbrev usage : String → RateLimiter → ℕ
usage k r = or_zero (lookup k r.counters)

usage-erase :
    (k j : String) (m : List (String × ℕ))
    → or_zero (lookup j (erase k m)) ≡ (if k === j then 0 else or_zero (lookup j m))
unfolding erase lookup
usage-erase k j [] = ground arith
usage-erase k j ((i, n) ∷ m) = ground (
  arith,
  usage-erase k j m,
  string_eq.same_iff i k,
  string_eq.same_iff i j,
  string_eq.same_iff k j,
)

counters_lem :
    (b : Bool) (key : String) (r : RateLimiter)
    → (if b
        then record r { reset_timers = key ∷ r.reset_timers; running = key ∷ r.running }
        else r).counters
      ≡ r.counters
counters_lem true key r = refl
counters_lem false key r = refl

counted_lem :
    (key k : String) (m : List (String × ℕ))
    → or_zero (if key === k then some (or_zero (lookup key m) + 1) else lookup k m)
      ≡ (if key === k then 1 else 0) + or_zero (lookup k m)
counted_lem key k m = elim (Bool-cases (key === k)) [
  | inl same ↦
      let at = ap (λ j. or_zero (lookup j m)) ((string_eq.same_iff key k).0 same) in
      rw same (omega (arith, at))
  | inr other ↦ rw other (omega arith)
]

usage-step : (k : String) (e : Event) (r : RateLimiter) → usage k (step e r) ≡ count k e (usage k r)
unfolding enforce_quota fire
usage-step k (called p t m units) r =
    let key = rate_key p t m in
    let current = or_zero (lookup key r.counters) + 1 in
    ap (λ c. or_zero (lookup k c))
      (counters_lem (nat_beq current 1) key (record r { counters = insert key current r.counters }))
    ∙ ap or_zero (lookup-insert key k current r.counters)
    ∙ counted_lem key k r.counters
usage-step k (fired key) r = usage-erase key k r.counters

usage-run :
    (k : String) (es : List Event) (r : RateLimiter)
    → usage k (run es r) ≡ calls_since k es (usage k r)
usage-run k [] r = refl
usage-run k (e ∷ es) r = usage-run k es (step e r) ∙ ap (calls_since k es) (usage-step k e r)

-- After any history, a call is allowed exactly when it is, since the timer of its key went off for the
-- last time, one of the first so many calls as the platform's limit says: each call counts as one,
-- whatever number of units it asked for and whether or not it was allowed.
pub enforce_quota-run :
    (es : List Event) (p t m : String) (units : ℕ)
    → (enforce_quota (run es new_limiter) p t m units).1
      ≡ leb (calls_since (rate_key p t m) es 0 + 1) (limit_of p)
unfolding enforce_quota lookup
enforce_quota-run es p t m units =
    ap (λ n. leb (n + 1) (limit_of p)) (usage-run (rate_key p t m) es new_limiter)

-- The timers of a key that will still go off.
abbrev pub timers : String → List String → ℕ
timers k [] = 0
timers k (j ∷ js) = (if j === k then 1 else 0) + timers k js

abbrev IsTimed : RateLimiter → Type 0
IsTimed r =
    (k : String) → timers k r.running ≡ (if ltb 0 (or_zero (lookup k r.counters)) then 1 else 0)

timers-without :
    (k j : String) (js : List String)
    → timers k (without j js) ≡ (if j === k then timers k js - 1 else timers k js)
timers-without k j [] = ground arith
timers-without k j (i ∷ js) = ground (
  arith,
  timers-without k j js,
  string_eq.same_iff i k,
  string_eq.same_iff i j,
  string_eq.same_iff j k,
)

running_lem :
    (b : Bool) (key k : String) (r : RateLimiter)
    → timers k
        (if b
          then record r { reset_timers = key ∷ r.reset_timers; running = key ∷ r.running }
          else r).running
      ≡ (if b && key === k then 1 else 0) + timers k r.running
running_lem true key k r = refl
running_lem false key k r = omega arith

timed_lem :
    (key k : String) (m : List (String × ℕ)) (n : ℕ)
    → n ≡ (if ltb 0 (or_zero (lookup k m)) then 1 else 0)
    → (if nat_beq (or_zero (lookup key m) + 1) 1 && key === k then 1 else 0) + n
      ≡ (if ltb 0 ((if key === k then 1 else 0) + or_zero (lookup k m)) then 1 else 0)
timed_lem key k m n h = elim (Bool-cases (key === k)) [
  | inl same ↦
      let at = ap (λ j. or_zero (lookup j m)) ((string_eq.same_iff key k).0 same) in
      rw same (ground (arith, at, h))
  | inr other ↦ rw other (ground (arith, h))
]

step-IsTimed : (e : Event) (r : RateLimiter) → IsTimed r → IsTimed (step e r)
unfolding enforce_quota fire
step-IsTimed (called p t m units) r h k =
    let key = rate_key p t m in
    let current = or_zero (lookup key r.counters) + 1 in
    let now = record r { counters = insert key current r.counters } in
    running_lem (nat_beq current 1) key k now
    ∙ timed_lem key k r.counters (timers k r.running) (h k)
    ∙ ap (λ n. if ltb 0 n then 1 else 0) (sym (usage-step k (called p t m units) r))
step-IsTimed (fired key) r h k =
    ground (arith, timers-without k key r.running, h k, usage-erase key k r.counters)

run-IsTimed : (es : List Event) (r : RateLimiter) → IsTimed r → IsTimed (run es r)
run-IsTimed [] r h = h
run-IsTimed (e ∷ es) r h = run-IsTimed es (step e r) (step-IsTimed e r h)

-- After any history, a key has one timer that will still go off if some call was counted since the
-- last one went off, and none otherwise: no counter stays without a timer that resets it.
pub get_current_usage-timers :
    (es : List Event) (p t m : String)
    → (let r = run es new_limiter in
        timers (rate_key p t m) r.running ≡ (if ltb 0 (get_current_usage r p t m) then 1 else 0))
unfolding get_current_usage lookup
get_current_usage-timers es p t m = run-IsTimed es new_limiter (λ k. refl) (rate_key p t m)
