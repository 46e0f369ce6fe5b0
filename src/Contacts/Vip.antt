-- ===== src/Contacts/Vip.antt =====
-- When a sender becomes a VIP.
use volunteer_training.Prelude.{
  ℕ, ◌≡◌, refl, ap, ◌∙◌, Bool, true, false, not, ◌&&◌, if◌then◌else◌, leb,
}
use volunteer_training.Contacts.Classification.{personal}
use volunteer_training.Contacts.Profile.{
  SenderProfile, auto_promoted, promoted, same_type, promote_to_vip_if_qualified,
}
use volunteer_training.Contacts.Frequency.{out_count, compute_interaction_frequency_lem}

-- What the promotion needs.
abbrev pub qualifies : SenderProfile → ℕ → ℕ → ℕ → Bool
qualifies p threshold days now =
    not p.is_vip
    && same_type p.classification.classification personal
    && leb threshold (out_count days now p.interaction_events)

guards :
    (a b c : Bool) (x y : SenderProfile × Bool)
    → (if a then x else if not b then x else if c then y else x)
      ≡ (if not a && b && c then y else x)
guards true b c x y = refl
guards false false c x y = refl
guards false true c x y = refl

-- A sender is promoted, with one event, exactly when it is no VIP, counts as personal, and was written
-- to at least as often as the threshold says in the window; otherwise nothing changes.
pub promote_to_vip_if_qualified_lem :
    (p : SenderProfile) (threshold days now : ℕ)
    → promote_to_vip_if_qualified p threshold days now ≡ (
        if qualifies p threshold days now
        then (promoted p auto_promoted true, true)
        else (p, false))
unfolding promote_to_vip_if_qualified
promote_to_vip_if_qualified_lem p threshold days now =
    let f = compute_interaction_frequency_lem p days now in
    ap
      (λ n.
        if p.is_vip
        then (p, false)
        else if not (same_type p.classification.classification personal)
        then (p, false)
        else if leb threshold n
        then (promoted p auto_promoted true, true)
        else (p, false))
      (f.2 ∙ f.1)
    ∙ guards p.is_vip (same_type p.classification.classification personal)
        (leb threshold (out_count days now p.interaction_events)) (p, false)
        (promoted p auto_promoted true, true)
