-- ===== src/Feedback/Tests.antt =====
-- The examples of corrections and of the cache of senders' categories.
use volunteer_training.Prelude.{
  ℕ, ◌+◌, ◌≡◌, refl, true, false, ltb, leb, Option, none, some, List, [], ◌∷◌, arith, lookup,
  insert, string_eq, if◌then◌else◌,
}
use volunteer_training.Prelude.Json.{str}
use volunteer_training.Prelude.Store.{Store, function_store, update_at}
use volunteer_training.Feedback.Correction.{
  VerdictSnapshot, classification, passive_inferred, CorrectionRecord, CorrectionRow, CorrectionKey,
  correction_key_eq, create, is_trusted, to_db,
}
use volunteer_training.Feedback.Corroboration.{
  Call, corroborates, confirms, processes, run, stage_of, used, stages, first_stage, stage_of-run,
}
use volunteer_training.Feedback.Reload.{key_of}
use volunteer_training.Feedback.Reputation.{
  Weight, IsCompared, ReputationEntry, record_category, get_most_likely_category,
}
use volunteer_training.Feedback.Reputation
use volunteer_training.Feedback.Observations
use volunteer_training.Feedback.Observations.{Counts, calls_for, record_category-Counts}

abbrev moved : VerdictSnapshot
moved = record {
  originating_context = classification;
  message_id = "m";
  original_verdict = str "newsletter";
  corrected_verdict = str "personal";
  captured_at = 5;
}

abbrev inferred_record : CorrectionRecord
unfolding create
inferred_record = create "t" "m" moved passive_inferred "r" 6

abbrev calls : List Call
calls = corroborates ∷ processes ∷ corroborates ∷ confirms ∷ processes ∷ []

is_used : stages calls (first_stage passive_inferred) ≡ used
is_used = refl

stage_of-run_example :
    stage_of (run calls (create "t" "m" moved passive_inferred "r" 6))
    ≡ stages calls (first_stage passive_inferred)
stage_of-run_example = stage_of-run calls "t" "m" moved passive_inferred "r" 6

abbrev corrections : Store CorrectionKey CorrectionRow
corrections = function_store

abbrev no_rows : CorrectionKey → Option CorrectionRow
no_rows k = none

abbrev one_row : CorrectionKey → Option CorrectionRow
unfolding to_db create
one_row =
    update_at (key_of corrections inferred_record "t")
      (record (to_db inferred_record) { id = "made" }) no_rows

is_not_trusted : is_trusted inferred_record ≡ false
unfolding is_trusted create
is_not_trusted = refl

-- Weights counted in hundredths, with the cap at a hundred.
instance abbrev hundredths : Weight ℕ
hundredths = record {
  add_capped = λ a b. if ltb 100 (a + b) then 100 else a + b;
  greater = λ a b. ltb b a;
  at_least = λ a b. leb b a;
  boost = 5;
}

not_below_itself : (x : ℕ) → ltb x x ≡ false
not_below_itself x = ground arith

not_below_more : (x y z : ℕ) → ltb x y ≡ true → ltb x z ≡ false → ltb y z ≡ false
not_below_more x y z hy hz = ground arith

instance abbrev hundredths_compared : IsCompared ℕ
hundredths_compared = record { greater_self = not_below_itself; greater_trans = not_below_more }

abbrev corrected : List (Observations.Call ℕ)
corrected = ("newsletter", 80, 1) ∷ ("personal", 83, 2) ∷ ("newsletter", 10, 3) ∷ []

-- The second call of the newsletters raises their weight above that of the other category.
newsletter_is_best :
    get_most_likely_category (Observations.run corrected (Reputation.create "t" "example.com"))
    ≡ some "newsletter"
unfolding get_most_likely_category record_category lookup insert Reputation.create
    Reputation.with_additional_observation
newsletter_is_best = refl
