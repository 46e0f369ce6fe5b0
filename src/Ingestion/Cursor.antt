-- ===== src/Ingestion/Cursor.antt =====
-- src/mailbox-ingestion: domain/value-objects/sync-cursor.ts, and the cursors that the adapters
-- gmail-ingestion.adapter.ts and outlook-ingestion.adapter.ts return. Numbers are exact up to 2 ^ 53.
use Prim.Native.String.{◌++◌}
use volunteer_training.Prelude.{
  ℕ, Bool, true, false, not, Option, none, some, String, ◌===◌, string_eq,
}
use volunteer_training.Prelude.Int.{ℤ, pos, ◌+ℤ◌, leb_ℤ}
use volunteer_training.Prelude.Integer.{parse_int, int_text}
use volunteer_training.Ingestion.Envelope.{Platform, gmail, outlook}

pub record SyncCursor : Type 0 where
  pub platform : Platform
  pub value : String

-- The comparison of two numbers, `none` being NaN.
abbrev pub advances : Option ℤ → Option ℤ → Bool
advances none none = false
advances none (some new) = true
advances (some old) none = false
advances (some old) (some new) = leb_ℤ old new

abbrev pub can_advance : Platform → String → String → Bool
can_advance gmail value new_value = advances (parse_int value) (parse_int new_value)
can_advance outlook value new_value = not (new_value === value)

unfoldable pub can_advance_to : SyncCursor → String → Bool
can_advance_to c new_value = can_advance c.platform c.value new_value

-- `parseInt(cursorValue, 10) || 0`
abbrev pub history_id : Option ℤ → ℤ
history_id none = pos 0
history_id (some n) = n

-- The cursor of the Gmail adapter's `pullDelta`.
unfoldable pub gmail_cursor : String → String
gmail_cursor cursor_value = int_text (history_id (parse_int cursor_value) +ℤ pos 1)

-- That of the Outlook adapter, which does not read the old one.
unfoldable pub outlook_cursor : String → ℕ → String
outlook_cursor cursor_value now = "deltaLink-" ++ int_text (pos now)
