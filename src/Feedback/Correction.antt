-- ===== src/Feedback/Correction.antt =====
-- src/feedback-learning/domain: the aggregate correction-record.aggregate.ts, the value objects
-- verdict-snapshot.ts and correction-evidence.ts, and correction-record.repository.ts. A value that is
-- `undefined` is `none`; the random id of a new record is an argument.
use volunteer_training.Prelude.{
  ℕ, ◌+◌, ◌≡◌, ◌↔◌, arith, Bool, true, false, not, ◌&&◌, ◌||◌, Option, none, some, List, [], ◌∷◌,
  ◌++◌, String, Eq, leb, if◌then◌else◌, string_eq, ◌===◌,
}
use volunteer_training.Prelude.Json.{Json, json_eq}
use volunteer_training.Prelude.Store.{Store}

-- `Verdict`: the context that a verdict comes from.
pub data Verdict : Type 0 where
  classification priority threat contact : Verdict

pub record VerdictSnapshot : Type 0 where
  pub originating_context : Verdict
  pub message_id : String
  pub original_verdict : Json
  pub corrected_verdict : Json
  pub captured_at : ℕ

-- The texts of two JSON values are equal when the values are.
unfoldable pub snapshot_is_different : VerdictSnapshot → Bool
snapshot_is_different v = not (v.original_verdict === v.corrected_verdict)

pub data CorrectionSource : Type 0 where
  passive_inferred explicit_user_action admin_override : CorrectionSource

pub data CorrectionState : Type 0 where
  candidate confirmed processed : CorrectionState

pub record CorrectionEvidence : Type 0 where
  pub source : Option CorrectionSource
  pub observed_at : Option ℕ
  pub corroboration_count : ℕ

abbrev pub is_passive : Option CorrectionSource → Bool
is_passive (some passive_inferred) = true
is_passive _ = false

abbrev pub is_admin : Option CorrectionSource → Bool
is_admin (some admin_override) = true
is_admin _ = false

unfoldable pub is_high_trust : CorrectionEvidence → Bool
is_high_trust e = not (is_passive e.source)

unfoldable pub requires_admin_override : CorrectionEvidence → Bool
requires_admin_override e = is_admin e.source

unfoldable pub with_additional_corroboration : CorrectionEvidence → CorrectionEvidence
with_additional_corroboration e = record e { corroboration_count = e.corroboration_count + 1 }

-- An object as it is stored and read: a field that it does not have is `none`.
pub record VerdictData : Type 0 where
  pub snapshot : VerdictSnapshot
  pub source : Option CorrectionSource
  pub observed_at : Option ℕ
  pub corroboration_count : Option ℕ

-- `VerdictSnapshot.toDb` writes the five fields of a snapshot and no other.
abbrev pub snapshot_to_db : VerdictSnapshot → VerdictData
snapshot_to_db v = record {
  snapshot = v;
  source = none;
  observed_at = none;
  corroboration_count = none;
}

-- A default parameter.
abbrev pub or_zero : Option ℕ → ℕ
or_zero none = 0
or_zero (some n) = n

-- `CorrectionEvidence.fromDb`
abbrev pub evidence_from_db : VerdictData → CorrectionEvidence
evidence_from_db v = record {
  source = v.source;
  observed_at = v.observed_at;
  corroboration_count = or_zero v.corroboration_count;
}

pub record CorrectionRecord : Type 0 where
  pub id : String
  pub tenant_id : String
  pub message_id : String
  pub verdict_snapshot : VerdictSnapshot
  pub evidence : CorrectionEvidence
  pub state : CorrectionState
  pub domain_events : List Json

abbrev pub initial_state : CorrectionSource → CorrectionState
initial_state passive_inferred = candidate
initial_state _ = confirmed

unfoldable pub create :
    String → String → VerdictSnapshot → CorrectionSource → String → ℕ → CorrectionRecord
create tenant_id message_id verdict source random now = record {
  id = random;
  tenant_id = tenant_id;
  message_id = message_id;
  verdict_snapshot = verdict;
  evidence = record { source = some source; observed_at = some now; corroboration_count = 0 };
  state = initial_state source;
  domain_events = [];
}

abbrev pub confirmed_from : CorrectionState → CorrectionState
confirmed_from candidate = confirmed
confirmed_from s = s

abbrev pub processed_from : CorrectionState → CorrectionState
processed_from confirmed = processed
processed_from s = s

abbrev pub is_candidate : CorrectionState → Bool
is_candidate candidate = true
is_candidate _ = false

abbrev pub is_confirmed : CorrectionState → Bool
is_confirmed confirmed = true
is_confirmed _ = false

unfoldable pub confirm_candidate : CorrectionRecord → CorrectionRecord
confirm_candidate r = record r { state = confirmed_from r.state }

unfoldable pub mark_processed : CorrectionRecord → CorrectionRecord
mark_processed r = record r { state = processed_from r.state }

unfoldable pub corroborate : CorrectionRecord → CorrectionRecord
unfolding confirm_candidate with_additional_corroboration
corroborate r =
    let counted = record r { evidence = with_additional_corroboration r.evidence } in
    if not (is_candidate r.state)
    then r
    else if leb 2 counted.evidence.corroboration_count
    then confirm_candidate counted
    else counted

unfoldable pub is_trusted : CorrectionRecord → Bool
unfolding is_high_trust
is_trusted r = is_high_trust r.evidence || is_confirmed r.state

unfoldable pub is_different : CorrectionRecord → Bool
unfolding snapshot_is_different
is_different r = snapshot_is_different r.verdict_snapshot

unfoldable pub push_event : CorrectionRecord → Json → CorrectionRecord
push_event r e = record r { domain_events = r.domain_events ++ e ∷ [] }

unfoldable pub clear_domain_events : CorrectionRecord → CorrectionRecord
clear_domain_events r = record r { domain_events = [] }

-- The columns of a row, beside the tenant and the message under which it stands.
pub record CorrectionRow : Type 0 where
  pub id : String
  pub verdict : VerdictData
  pub source : Option CorrectionSource
  pub state : CorrectionState

unfoldable pub to_db : CorrectionRecord → CorrectionRow
to_db r = record {
  id = r.id;
  verdict = snapshot_to_db r.verdict_snapshot;
  source = r.evidence.source;
  state = r.state;
}

pub record CorrectionKey : Type 0 where
  pub tenant_id : String
  pub message_id : String

unfoldable pub from_db : CorrectionKey → CorrectionRow → CorrectionRecord
from_db k row = record {
  id = row.id;
  tenant_id = k.tenant_id;
  message_id = k.message_id;
  verdict_snapshot = row.verdict.snapshot;
  evidence = evidence_from_db row.verdict;
  state = row.state;
  domain_events = [];
}

abbrev pub same_key : CorrectionKey → CorrectionKey → Bool
same_key a b = a.tenant_id === b.tenant_id && a.message_id === b.message_id

pub same_key_iff : (a b : CorrectionKey) → (same_key a b ≡ true) ↔ (a ≡ b)
same_key_iff a b = ground (
  arith,
  string_eq.same_iff a.tenant_id b.tenant_id,
  string_eq.same_iff a.message_id b.message_id,
)

instance abbrev pub correction_key_eq : Eq CorrectionKey
correction_key_eq = record { same = same_key; same_iff = same_key_iff }

-- The id of the row: the one that is there, or one that the database makes.
abbrev pub row_id : Option CorrectionRow → String → String
row_id none made = made
row_id (some old) made = old.id

module _ (table : Store CorrectionKey CorrectionRow) where
  open table use {Db, find, write}

  -- Both branches write the verdict, the source and the state; `none` is a throw.
  unfoldable pub save : CorrectionRecord → String → String → Db → Option Db
  unfolding to_db
  save r tenant_id made d =
      let k : CorrectionKey = record { tenant_id = tenant_id; message_id = r.message_id } in
      write k (record (to_db r) { id = row_id (find k d) made }) d

  abbrev pub of_row : CorrectionKey → Option CorrectionRow → Option CorrectionRecord
  of_row k none = none
  of_row k (some row) = some (from_db k row)

  unfoldable pub find_by_message_id : CorrectionKey → Db → Option CorrectionRecord
  find_by_message_id k d = of_row k (find k d)
