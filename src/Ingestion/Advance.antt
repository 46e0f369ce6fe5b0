-- ===== src/Ingestion/Advance.antt =====
-- A pull always moves the cursor forward.
use volunteer_training.Prelude.{
  ℕ, zero, suc, ◌≡◌, refl, ap, ◌∙◌, true, Option, none, some, String, arith,
}
use volunteer_training.Prelude.Int.{ℤ, pos, ◌+ℤ◌, +ℤ_parts, eq_of_parts}
use volunteer_training.Prelude.Integer.{parse_int, parse_int-int_text}
use volunteer_training.Ingestion.Envelope.{gmail}
use volunteer_training.Ingestion.Cursor.{advances, history_id, can_advance_to, gmail_cursor}

-- The pulls of a Gmail mailbox, each from the cursor of the one before.
abbrev pub pulls : ℕ → String → String
pulls zero cursor = cursor
pulls (suc n) cursor = pulls n (gmail_cursor cursor)

-- The same number, also where there is none to read: a pull prints a number.
number_of_pull :
    (cursor : String)
    → parse_int (gmail_cursor cursor) ≡ some (history_id (parse_int cursor) +ℤ pos 1)
unfolding gmail_cursor
number_of_pull cursor = parse_int-int_text (history_id (parse_int cursor) +ℤ pos 1)

add_one : (z : ℤ) (n : ℕ) → (z +ℤ pos 1) +ℤ pos n ≡ z +ℤ pos (suc n)
add_one z n =
    eq_of_parts ((z +ℤ pos 1) +ℤ pos n) (z +ℤ pos (suc n))
      (omega (arith, +ℤ_parts z (pos 1), +ℤ_parts (z +ℤ pos 1) (pos n), +ℤ_parts z (pos (suc n))))

pulls_from :
    (n : ℕ) (cursor : String)
    → parse_int (pulls (suc n) cursor) ≡ some (history_id (parse_int cursor) +ℤ pos (suc n))
pulls_from zero cursor = number_of_pull cursor
pulls_from (suc n) cursor =
    pulls_from n (gmail_cursor cursor)
    ∙ ap (λ o. some (history_id o +ℤ pos (suc n))) (number_of_pull cursor)
    ∙ ap some (add_one (history_id (parse_int cursor)) (suc n))

advances_by : (o : Option ℤ) (n : ℕ) → advances o (some (history_id o +ℤ pos n)) ≡ true
unfolding ◌+ℤ◌
advances_by none n = refl
advances_by (some z) n = ground arith

-- After one or more pulls of a Gmail mailbox from any cursor, also one that is no number, the cursor is
-- a number greater by the count of the pulls, and the old cursor may advance to it.
pub can_advance_to-pulls :
    (n : ℕ) (cursor : String)
    → (can_advance_to (record { platform = gmail; value = cursor }) (pulls (suc n) cursor) ≡ true)
      × (parse_int (pulls (suc n) cursor) ≡ some (history_id (parse_int cursor) +ℤ pos (suc n)))
unfolding can_advance_to
can_advance_to-pulls n cursor = (
  ap (advances (parse_int cursor)) (pulls_from n cursor) ∙ advances_by (parse_int cursor) (suc n),
  pulls_from n cursor,
)
