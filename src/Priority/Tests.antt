-- ===== src/Priority/Tests.antt =====
-- The examples of priorities.
use volunteer_training.Prelude.{
  ℕ, suc, ◌+◌, ◌*◌, ◌/◌, ◌≤◌, ◌-◌, ◌&&◌, ◌≡◌, refl, true, not, leb, List, [], ◌∷◌, if◌then◌else◌,
  arith, nat_beq,
}
use native.Mathlib.Nat.{mul-le-mul_left}
use volunteer_training.Prelude.Int.{ℤ, pos, negsuc}
use volunteer_training.Prelude.Result.{ok}
use volunteer_training.Priority.Score.{
  vip_status, urgency_language, Weighing, IsScaling, ScoringWeights, magnitude,
}
use volunteer_training.Priority.Message.{clamped, pending, compute_score}
use volunteer_training.Priority.Bounds.{Call, adds, rescores, run, IsSound, run-IsSound}
use volunteer_training.Priority.Fractions.{weighted, sum, compute_score-run}

-- Weights counted in hundredths; a half is rounded down.
abbrev in_hundredths : ℤ → ℕ → ℤ
in_hundredths (pos n) x = pos (n * x / 100)
in_hundredths (negsuc n) x =
    if nat_beq (suc n * x / 100) 0 then pos 0 else negsuc (suc n * x / 100 - 1)

instance abbrev hundredths : Weighing ℕ
hundredths = record {
  total = λ a b c d e. a + b + c + d + e;
  is_far_from_one = λ t. not (leb 99 t && leb t 101);
  text = λ t. "";
  scaled = in_hundredths;
  quarter = 25;
  fifth = 20;
  three_tenths = 30;
  tenth = 10;
  fifteen_hundredths = 15;
  is_fraction = λ x. leb x 100;
}

not_above : (n x : ℕ) → leb x 100 ≡ true → n * x / 100 ≤ n
not_above n x h = let small : x ≤ 100 = ground (arith, h) in omega (arith, mul-le-mul_left n small)

in_hundredths_bound :
    (c : ℤ) (x : ℕ) → leb x 100 ≡ true → magnitude (in_hundredths c x) ≤ magnitude c
in_hundredths_bound (pos n) x h = omega (arith, not_above n x h)
in_hundredths_bound (negsuc n) x h = ground (arith, not_above (suc n) x h)

instance abbrev hundredths_scaling : IsScaling ℕ
hundredths_scaling = record { scaled_bound = in_hundredths_bound }

abbrev weights : ScoringWeights ℕ
weights = record {
  vip_weight = 25;
  frequency_weight = 20;
  urgency_weight = 30;
  calendar_weight = 10;
  needs_reply_aging_weight = 15;
}

-- The second component is refused, and the third replaces the first one.
abbrev calls : List (Call ℕ)
calls =
    adds vip_status (pos 40) "VIP"
    ∷ adds urgency_language (pos 300) "urgent"
    ∷ adds vip_status (pos 100) "VIP"
    ∷ rescores weights 5
    ∷ []

run-IsSound_example : IsSound (run calls (pending "t" "m" 1 2))
run-IsSound_example = run-IsSound calls "t" "m" 1 2

compute_score-run_example :
    let p = run calls (pending "t" "m" 1 2) in
    let new = weighted weights p.components in compute_score p weights ≡ ok (clamped (sum new), new)
compute_score-run_example = compute_score-run calls "t" "m" 1 2 weights refl
