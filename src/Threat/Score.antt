-- ===== src/Threat/Score.antt =====
-- When the value objects call a message risky.
use volunteer_training.Prelude.{truthy, ◌≡◌, ◌≤◌, ◌↔◌, ◌⊎◌, true, false, arith}
use volunteer_training.Prelude.Int.{pos, ◌≤ℤ◌}
use volunteer_training.Threat.Values.{LookalikeProps, lookalike_score, lookalike_is_high_risk}

-- Every lookalike score lies between 0 and 1, and it is high exactly when the domain matches a brand
-- of the watch list, was never corresponded with, and is a homoglyph or at edit distance 0 or 1.
pub lookalike_is_high_risk_iff :
    (p : LookalikeProps)
    → ((lookalike_score p).score ≤ 10)
      × ((lookalike_is_high_risk (lookalike_score p) ≡ true) ↔ (
          (truthy p.matched_brand ≡ true)
          × (p.prior_correspondence_with_domain ≡ false)
          × ((p.homoglyph_match ≡ true)
              ⊎ ((pos 0 ≤ℤ p.edit_distance) × (p.edit_distance ≤ℤ pos 1)))))
unfolding lookalike_is_high_risk lookalike_score
lookalike_is_high_risk_iff p = (ground arith, (ground arith, ground arith))
