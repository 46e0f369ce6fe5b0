-- ===== src/Priority/Escalation.antt =====
-- When a stored score counts as an escalation.
use volunteer_training.Prelude.{
  ℕ, ◌≡◌, refl, ap, ◌∙◌, Bool, ◌&&◌, none, some, List, if◌then◌else◌, arith,
}
use volunteer_training.Prelude.Int.{ℤ, pos, leb_ℤ, ltb_ℤ, max_ℤ, min_ℤ}
use volunteer_training.Priority.Score.{ScoreComponent}
use volunteer_training.Priority.Message.{
  MessagePriority, clamped, tier_for_score, is_calm, is_urgent, update_score,
}

-- A tier is the one that its score stands for.
abbrev pub Fits : MessagePriority → Type 0
Fits p = p.tier ≡ tier_for_score p.score

abbrev pub escalates : ℤ → ℤ → Bool
escalates old new = ltb_ℤ old (pos 60) && leb_ℤ (pos 60) new

is_calm-tier_for_score : (z : ℤ) → is_calm (tier_for_score z) ≡ ltb_ℤ z (pos 60)
is_calm-tier_for_score z = ground arith

is_urgent-tier_for_score : (z : ℤ) → is_urgent (tier_for_score z) ≡ leb_ℤ (pos 60) z
is_urgent-tier_for_score z = ground arith

clamped-at_least : (z : ℤ) → leb_ℤ (pos 60) (clamped z) ≡ leb_ℤ (pos 60) z
unfolding max_ℤ min_ℤ
clamped-at_least z = ground arith

-- Where the tier is that of the score, storing a score reports an escalation exactly when the score
-- was below 60 and the new one is not, and what it reports is then the new tier; and the tier is again
-- that of the score.
pub update_score_lem :
    (p : MessagePriority) (score : ℤ) (cs : List ScoreComponent) (now : ℕ)
    → p.tier ≡ tier_for_score p.score
    → (let (q, reported) = update_score p score cs now in
        (reported ≡ (if escalates p.score score then some q.tier else none))
        × (q.tier ≡ tier_for_score q.score))
unfolding update_score
update_score_lem p score cs now h =
    let calm = ap is_calm h ∙ is_calm-tier_for_score p.score in
    let urgent = is_urgent-tier_for_score (clamped score) ∙ clamped-at_least score in
    (rw (calm, urgent) refl, refl)
