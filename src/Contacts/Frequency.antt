-- ===== src/Contacts/Frequency.antt =====
-- The counts of a sender's interactions, against a count by one predicate each.
use volunteer_training.Prelude.{
  ℕ, ◌+◌, ◌≡◌, refl, Bool, Bool-cases, inl, inr, ◌∙◌, true, false, not, ◌&&◌, if◌then◌else◌, arith,
  List, [], ◌∷◌, length,
}
use volunteer_training.Contacts.Profile.{
  InteractionEvent, Direction, inbound, outbound, is_recent, recent_events, counted,
  count_directions, SenderProfile, compute_interaction_frequency,
}

abbrev pub is_out : Direction → Bool
is_out inbound = false
is_out outbound = true

abbrev pub count_if : (InteractionEvent → Bool) → List InteractionEvent → ℕ
count_if f [] = 0
count_if f (e ∷ es) = (if f e then 1 else 0) + count_if f es

abbrev pub out_count : ℕ → ℕ → List InteractionEvent → ℕ
out_count days now = count_if (λ e. is_recent days now e && is_out e.direction)

abbrev pub in_count : ℕ → ℕ → List InteractionEvent → ℕ
in_count days now = count_if (λ e. is_recent days now e && not (is_out e.direction))

counted_lem :
    (d : Direction) (c : ℕ × ℕ)
    → counted d c ≡ (c.0 + (if not (is_out d) then 1 else 0), c.1 + (if is_out d then 1 else 0))
counted_lem inbound (i, o) = ground arith
counted_lem outbound (i, o) = ground arith

pair_lem :
    (c : ℕ × ℕ) (x y m n : ℕ)
    → ◌≡◌ {A = ℕ × ℕ} ((c.0 + x) + m, (c.1 + y) + n) (c.0 + (x + m), c.1 + (y + n))
pair_lem c x y m n = ground arith

count_directions_lem :
    (days now : ℕ) (es : List InteractionEvent) (c : ℕ × ℕ)
    → count_directions (recent_events days now es) c
      ≡ (c.0 + in_count days now es, c.1 + out_count days now es)
unfolding recent_events count_directions
count_directions_lem days now [] (i, o) = ground arith
count_directions_lem days now (e ∷ es) c = elim (Bool-cases (is_recent days now e)) [
  | inl h ↦ rw h (
      count_directions_lem days now es (counted e.direction c)
      ∙ rw (counted_lem e.direction c) (
          pair_lem c (if not (is_out e.direction) then 1 else 0)
            (if is_out e.direction then 1 else 0) (in_count days now es) (out_count days now es)))
  | inr h ↦ rw h (count_directions_lem days now es c ∙ ground arith)
]

length-recent_events :
    (days now : ℕ) (es : List InteractionEvent)
    → length (recent_events days now es) ≡ in_count days now es + out_count days now es
unfolding recent_events
length-recent_events days now [] = omega arith
length-recent_events days now (e ∷ es) = ground (arith, length-recent_events days now es)

-- The counts of a window: outbound interactions in it, inbound ones, and the total, which is their
-- sum.
pub compute_interaction_frequency_lem :
    (p : SenderProfile) (days now : ℕ)
    → (let f = compute_interaction_frequency p days now in
        (f.inbound_count ≡ in_count days now p.interaction_events)
        × (f.outbound_count ≡ out_count days now p.interaction_events)
        × (f.bidirectional_count ≡ f.outbound_count)
        × (f.total_interactions ≡ f.inbound_count + f.outbound_count))
unfolding compute_interaction_frequency
compute_interaction_frequency_lem p days now =
    let es = p.interaction_events in
    let counts = count_directions_lem days now es (0, 0) in
    let i : (count_directions (recent_events days now es) (0, 0)).0 ≡ in_count days now es =
      rw counts (omega arith) in
    let o : (count_directions (recent_events days now es) (0, 0)).1 ≡ out_count days now es =
      rw counts (omega arith) in
    (i, o, refl, omega (arith, length-recent_events days now es, i, o))
