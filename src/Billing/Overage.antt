-- ===== src/Billing/Overage.antt =====
-- When an overage is detected.
use volunteer_training.Prelude.{
  ℕ, ◌+◌, ◌≡◌, refl, ap, ◌∙◌, Bool, true, false, not, ◌&&◌, ◌||◌, List, [], ◌∷◌, length,
  length-append, arith, if◌then◌else◌,
}
use volunteer_training.Prelude.Int.{ℤ, ◌+ℤ◌, leb_ℤ}
use volunteer_training.Billing.Meter.{UsageMeter, overage_of, atomic_increment}

abbrev pub run : List (ℤ × ℕ) → UsageMeter → UsageMeter
run [] m = m
run ((amount, now) ∷ as') m = run as' (atomic_increment m amount now)

-- Whether some count on the way reaches a threshold.
abbrev pub is_reached : ℤ → ℤ → List (ℤ × ℕ) → Bool
is_reached threshold count [] = false
is_reached threshold count ((amount, now) ∷ as') =
    leb_ℤ threshold (count +ℤ amount) || is_reached threshold (count +ℤ amount) as'

abbrev pub sum_of : ℤ → List (ℤ × ℕ) → ℤ
sum_of count [] = count
sum_of count ((amount, now) ∷ as') = sum_of (count +ℤ amount) as'

abbrev to_ℕ : Bool → ℕ
to_ℕ true = 1
to_ℕ false = 0

increment_detects :
    (m : UsageMeter) (amount : ℤ) (now : ℕ)
    → let m' = atomic_increment m amount now in
      (m'.overage_detected
        ≡ (m.overage_detected || leb_ℤ m.overage_threshold (m.usage_count +ℤ amount)))
      × (length m'.uncommitted_events
          ≡ length m.uncommitted_events
            + to_ℕ (not m.overage_detected && leb_ℤ m.overage_threshold (m.usage_count +ℤ amount)))
unfolding atomic_increment
increment_detects m amount now =
    ground (arith, length-append m.uncommitted_events (overage_of m (m.usage_count +ℤ amount) ∷ []))

increment_keeps :
    (m : UsageMeter) (amount : ℤ) (now : ℕ)
    → let m' = atomic_increment m amount now in
      (m'.usage_count ≡ m.usage_count +ℤ amount) × (m'.overage_threshold ≡ m.overage_threshold)
unfolding atomic_increment
increment_keeps m amount now = ground arith

bool_step {ℓ} :
    {C : Type ℓ} (d d' e r : Bool) (n n' k : ℕ) (l l' : Bool)
    → l ≡ l'
    → d' ≡ (d || l)
    → n' ≡ n + to_ℕ (not d && l)
    → (e ≡ (d' || r)) × ((k ≡ n' + to_ℕ (not d' && r)) × C)
    → (e ≡ (d || (l' || r))) × ((k ≡ n + to_ℕ (not d && (l' || r))) × C)
bool_step d d' e r n n' k l l' same h₁ h₂ (h₃, (h₄, c)) = (ground arith, (ground arith, c))

run_from :
    (as' : List (ℤ × ℕ)) (m : UsageMeter) (t c : ℤ)
    → m.overage_threshold ≡ t
    → m.usage_count ≡ c
    → ((run as' m).overage_detected ≡ (m.overage_detected || is_reached t c as'))
      × ((length (run as' m).uncommitted_events
            ≡ length m.uncommitted_events + to_ℕ (not m.overage_detected && is_reached t c as'))
          × ((run as' m).usage_count ≡ sum_of c as'))
run_from [] m t c et ec = ground arith
run_from ((amount, now) ∷ as') m t c et ec =
    let (detected, events) = increment_detects m amount now in
    let (count, threshold) = increment_keeps m amount now in
    let ih =
      run_from as' (atomic_increment m amount now) t (c +ℤ amount) (threshold ∙ et)
        (count ∙ ap (λ x. x +ℤ amount) ec) in
    bool_step _ _ _ _ _ _ _ _ _
      (ap (leb_ℤ m.overage_threshold) (ap (λ x. x +ℤ amount) ec)
        ∙ ap (λ x. leb_ℤ x (c +ℤ amount)) et)
      detected events ih

-- Whatever amounts a meter without an overage is incremented by, in any signs: it ends with an
-- overage, and with exactly one more event, when some count on the way reached the threshold, and
-- with neither when none did; and its count is the sum.
pub overage-run :
    (as' : List (ℤ × ℕ)) (m : UsageMeter)
    → m.overage_detected ≡ false
    → ((run as' m).overage_detected ≡ is_reached m.overage_threshold m.usage_count as')
      × ((length (run as' m).uncommitted_events
            ≡ length m.uncommitted_events
              + (if is_reached m.overage_threshold m.usage_count as' then 1 else 0))
          × ((run as' m).usage_count ≡ sum_of m.usage_count as'))
overage-run as' m h =
    let all = run_from as' m m.overage_threshold m.usage_count refl refl in ground arith
