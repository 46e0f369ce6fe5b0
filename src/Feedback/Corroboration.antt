-- ===== src/Feedback/Corroboration.antt =====
-- When a correction counts: the record as a machine of four stages.
use volunteer_training.Prelude.{
  ℕ, zero, suc, ◌≡◌, refl, ap, ◌∙◌, false, ◌&&◌, List, [], ◌∷◌, String, arith, leb,
}
use volunteer_training.Feedback.Correction.{
  VerdictSnapshot, CorrectionSource, passive_inferred, explicit_user_action, admin_override,
  CorrectionState, candidate, confirmed, processed, CorrectionRecord, create, confirm_candidate,
  mark_processed, corroborate, with_additional_corroboration, is_candidate,
}

pub data Call : Type 0 where
  corroborates confirms processes : Call

abbrev pub step : Call → CorrectionRecord → CorrectionRecord
step corroborates r = corroborate r
step confirms r = confirm_candidate r
step processes r = mark_processed r

abbrev pub run : List Call → CorrectionRecord → CorrectionRecord
run [] r = r
run (c ∷ cs) r = run cs (step c r)

-- Inferred and not corroborated, corroborated once, trusted, and used.
pub data Stage : Type 0 where
  inferred heard settled used : Stage

abbrev pub next : Call → Stage → Stage
next corroborates inferred = heard
next corroborates heard = settled
next confirms inferred = settled
next confirms heard = settled
next processes settled = used
next _ s = s

abbrev pub stages : List Call → Stage → Stage
stages [] s = s
stages (c ∷ cs) s = stages cs (next c s)

abbrev pub stage : CorrectionState → ℕ → Stage
stage candidate zero = inferred
stage candidate (suc n) = heard
stage confirmed n = settled
stage processed n = used

abbrev pub stage_of : CorrectionRecord → Stage
stage_of r = stage r.state r.evidence.corroboration_count

abbrev pub first_stage : CorrectionSource → Stage
first_stage passive_inferred = inferred
first_stage _ = settled

-- A candidate has fewer than two corroborations.
abbrev IsOpen : CorrectionRecord → Type 0
IsOpen r = (is_candidate r.state && leb 2 r.evidence.corroboration_count) ≡ false

step_lem :
    (c : Call) (r : CorrectionRecord)
    → IsOpen r
    → IsOpen (step c r) × (stage_of (step c r) ≡ next c (stage_of r))
unfolding corroborate confirm_candidate mark_processed with_additional_corroboration
step_lem corroborates r h = ground arith
step_lem confirms r h = ground arith
step_lem processes r h = ground arith

run_from :
    (cs : List Call) (r : CorrectionRecord)
    → IsOpen r
    → stage_of (run cs r) ≡ stages cs (stage_of r)
run_from [] r h = refl
run_from (c ∷ cs) r h =
    let (open', same) = step_lem c r h in run_from cs (step c r) open' ∙ ap (stages cs) same

-- Whatever calls a new correction gets, it goes through the stages of the four-stage machine: an
-- inferred one is trusted at its second corroboration or when it is confirmed, one by a user or an
-- admin from the start, and only a trusted one becomes used.
pub stage_of-run :
    (cs : List Call) (t m : String) (v : VerdictSnapshot) (s : CorrectionSource) (random : String)
    (now : ℕ)
    → stage_of (run cs (create t m v s random now)) ≡ stages cs (first_stage s)
unfolding create
stage_of-run cs t m v passive_inferred random now =
    run_from cs (create t m v passive_inferred random now) refl
stage_of-run cs t m v explicit_user_action random now =
    run_from cs (create t m v explicit_user_action random now) refl
stage_of-run cs t m v admin_override random now =
    run_from cs (create t m v admin_override random now) refl
