-- ===== src/Rollout/Outages.antt =====
-- When the service is degraded, over every list of calls.
use volunteer_training.Prelude.{
  ℕ, ◌+◌, ◌≤◌, ◌≡◌, ◌↔◌, ◌⊎◌, refl, ap, sym, ◌∙◌, true, Option, none, some, List, [], ◌∷◌, arith,
  leb, ltb, if◌then◌else◌,
}
use mathlib.Core.Path.{subst}
use volunteer_training.Rollout.Degradation.{
  Degradation, healthy, Alert, degradation_alert, recovery_alert, record_llm_failure,
  record_llm_success, retry_llm_provider, is_degraded_mode, get_time_until_retry,
}

pub data Call : Type 0 where
  failure : ℕ → Call
  success retry : Call

unfoldable pub step : Degradation → Call → Degradation × List Alert
step s (failure now) = record_llm_failure s now
step s success = record_llm_success s
step s retry = (retry_llm_provider s, [])

unfoldable pub run : Degradation → List Call → Degradation
run s [] = s
run s (c ∷ cs) = run (step s c).0 cs

-- The failures since the last success or retry, and the time of the last of them.
abbrev pub streak : ℕ → List Call → ℕ
streak n [] = n
streak n (failure now ∷ cs) = streak (n + 1) cs
streak n (_ ∷ cs) = streak 0 cs

abbrev pub last_time : Option ℕ → List Call → Option ℕ
last_time t [] = t
last_time t (failure now ∷ cs) = last_time (some now) cs
last_time t (_ ∷ cs) = last_time none cs

failed :
    (s : Degradation) (now : ℕ)
    → s.llm_provider_healthy ≡ ltb s.consecutive_failures 5
    → ((step s (failure now)).0.llm_provider_healthy ≡ ltb (s.consecutive_failures + 1) 5)
      × ((step s (failure now)).0.consecutive_failures ≡ s.consecutive_failures + 1)
      × ((step s (failure now)).0.last_llm_failure ≡ some now)
unfolding step record_llm_failure
failed s now h = ground arith

recovered : (s : Degradation) → (step s success).0 ≡ healthy
unfolding step record_llm_success
recovered s = refl

retried : (s : Degradation) → (step s retry).0 ≡ healthy
unfolding step retry_llm_provider
retried s = refl

-- What a list of calls makes of a service whose counter and time were these.
abbrev Counts : ℕ → Option ℕ → List Call → Degradation → Type 0
Counts n t cs s =
    ((run s cs).llm_provider_healthy ≡ ltb (streak n cs) 5)
    × ((run s cs).consecutive_failures ≡ streak n cs)
    × ((run s cs).last_llm_failure ≡ last_time t cs)

run_from :
    (s : Degradation) (cs : List Call)
    → s.llm_provider_healthy ≡ ltb s.consecutive_failures 5
    → Counts s.consecutive_failures s.last_llm_failure cs s
unfolding run
run_from s [] h = (h, refl, refl)
run_from s (failure now ∷ cs) h =
    let (health, count, time) = failed s now h in
    rw (← count, ← time)
      (run_from (step s (failure now)).0 cs (health ∙ ap (λ n. ltb n 5) (sym count)))
run_from s (success ∷ cs) h =
    subst (Counts 0 none cs) (sym (recovered s)) (run_from healthy cs refl)
run_from s (retry ∷ cs) h = subst (Counts 0 none cs) (sym (retried s)) (run_from healthy cs refl)

-- After any list of calls on a fresh service, the counter is the number of failures since the last
-- success or retry, the time is that of the last of them, and the service is healthy exactly as
-- long as they are fewer than five.
pub run-streak :
    (cs : List Call)
    → ((run healthy cs).llm_provider_healthy ≡ ltb (streak 0 cs) 5)
      × ((run healthy cs).consecutive_failures ≡ streak 0 cs)
      × ((run healthy cs).last_llm_failure ≡ last_time none cs)
run-streak cs = run_from healthy cs refl

-- A degraded service is due for a retry (the waiting time is 0) exactly when a minute has passed
-- since the last failure; before that it waits for just the rest of the minute.
pub get_time_until_retry_lem :
    (s : Degradation) (last now : ℕ)
    → is_degraded_mode s ≡ true
    → s.last_llm_failure ≡ some last
    → ((get_time_until_retry s now ≡ 0) ↔ (last + 60000 ≤ now))
      × ((get_time_until_retry s now ≡ 0) ⊎ (now + get_time_until_retry s now ≡ last + 60000))
unfolding get_time_until_retry is_degraded_mode
get_time_until_retry_lem s last now d f = ((λ e. ground arith, λ e. ground arith), ground arith)

-- A degradation alert comes with exactly the failures from the fifth of a streak on, and a recovery
-- alert with exactly the successes that find the service degraded.
pub step-alerts :
    (cs : List Call) (now : ℕ)
    → let s = run healthy cs in
      ((step s (failure now)).1 ≡ (if leb 4 (streak 0 cs) then degradation_alert ∷ [] else []))
      × ((step s success).1 ≡ (if leb 5 (streak 0 cs) then recovery_alert ∷ [] else []))
unfolding step record_llm_failure record_llm_success
step-alerts cs now = ground (arith, run-streak cs)
