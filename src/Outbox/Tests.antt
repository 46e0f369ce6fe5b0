-- ===== src/Outbox/Tests.antt =====
-- The examples: a table of one row, and queues that remember the ids of their jobs.
use volunteer_training.Prelude.{
  ℕ, ◌≡◌, ◌≤◌, ◌<◌, refl, sym, ap, ◌∙◌, Bool, true, false, not, ◌&&◌, Option, none, some, is_some,
  List, [], ◌∷◌, String, All, length, arith, ltb, if◌then◌else◌, string_eq, ◌===◌, lookup, add,
  contains, contains-add, suc, zero,
}
use text.Mathlib.TextEquality.{eq_iff}
use text.Mathlib.TextPositions.{eq_refl}
use volunteer_training.Prelude.Json.{Json}
use volunteer_training.Prelude.Result.{Result, ok, throws}
use volunteer_training.Outbox.Routing.{QueueName, targets_of}
use volunteer_training.Outbox.Relay.{
  OutboxRow, OutboxTable, Broker, Job, HasDistinctIds, map_row, publish_at, Swept, add_all_jobs,
  relay_row, relay_rows, relay, max_attempts, batch_size,
}
use volunteer_training.Outbox.Delivery.{IsDelivered, IsRowDelivered}
use volunteer_training.Outbox.Sweep.{relay-IsDelivered}
use volunteer_training.Outbox.Healthy.{works, AreHandled, relay_handles}

-- A table of at most one row, under its key.
abbrev KeyedRow : Type 0
KeyedRow = Option (String × OutboxRow)

abbrev find_keyed : String → KeyedRow → Option OutboxRow
find_keyed j none = none
find_keyed j (some (k, r)) = if k === j then some r else none

abbrev update_keyed : String → (OutboxRow → OutboxRow) → KeyedRow → Result KeyedRow
update_keyed j f none = throws "not found"
update_keyed j f (some (k, r)) = ok (some (k, if k === j then f r else r))

abbrev one_if : Bool → OutboxRow → ℕ → List OutboxRow
one_if false r n = []
one_if true r zero = []
one_if true r (suc n) = r ∷ []

abbrev is_pending : ℕ → String → OutboxRow → Bool
is_pending limit k r = (not r.published && ltb r.attempts limit) && k === r.id

abbrev pending_keyed : ℕ → ℕ → KeyedRow → List OutboxRow
pending_keyed limit n none = []
pending_keyed limit n (some (k, r)) = one_if (is_pending limit k r) r n

abbrev row_of : KeyedRow → Result KeyedRow → KeyedRow
row_of d (throws m) = d
row_of d (ok d') = d'

keyed_updated :
    (k j : String) (f : OutboxRow → OutboxRow) (d d' : KeyedRow)
    → update_keyed k f d ≡ ok d'
    → find_keyed j d' ≡ (if k === j then map_row f (find_keyed j d) else find_keyed j d)
keyed_updated k j f none d' h = cc
keyed_updated k j f (some (c, r)) d' h =
    ap (find_keyed j) (sym (ap (row_of none) h))
    ∙ ground (arith, eq_iff c j, eq_iff k j, eq_iff c k)

one_if-All {ℓ} :
    (P : OutboxRow → Type ℓ) (b : Bool) (r : OutboxRow) (n : ℕ)
    → (b ≡ true → P r)
    → All P (one_if b r n)
one_if-All P false r n h = tt
one_if-All P true r zero h = tt
one_if-All P true r (suc n) h = (h refl, tt)

one_if-HasDistinctIds : (b : Bool) (r : OutboxRow) (n : ℕ) → HasDistinctIds (one_if b r n)
one_if-HasDistinctIds false r n = tt
one_if-HasDistinctIds true r zero = tt
one_if-HasDistinctIds true r (suc n) = (tt, tt)

length-one_if : (b : Bool) (r : OutboxRow) (n : ℕ) → length (one_if b r n) ≤ n
length-one_if false r n = omega arith
length-one_if true r zero = omega arith
length-one_if true r (suc n) = omega arith

keyed_stored :
    (limit n : ℕ) (d : KeyedRow)
    → All (λ r. find_keyed (OutboxRow.id r) d ≡ some r) (pending_keyed limit n d)
keyed_stored limit n none = tt
keyed_stored limit n (some (k, r)) =
    one_if-All (λ x. find_keyed x.id (some (k, r)) ≡ some x) _ r n
      (λ h. ground (arith, eq_iff k r.id))

keyed_open :
    (limit n : ℕ) (d : KeyedRow)
    → All
        (λ r. (OutboxRow.published r ≡ false) × (OutboxRow.attempts r < limit))
        (pending_keyed limit n d)
keyed_open limit n none = tt
keyed_open limit n (some (k, r)) =
    one_if-All (λ x. (x.published ≡ false) × (x.attempts < limit)) _ r n (λ h. ground arith)

keyed_distinct : (limit n : ℕ) (d : KeyedRow) → HasDistinctIds (pending_keyed limit n d)
keyed_distinct limit n none = tt
keyed_distinct limit n (some (k, r)) = one_if-HasDistinctIds _ r n

keyed_few : (limit n : ℕ) (d : KeyedRow) → length (pending_keyed limit n d) ≤ n
keyed_few limit n none = omega arith
keyed_few limit n (some (k, r)) = length-one_if _ r n

abbrev keyed_table : OutboxTable
keyed_table = record {
  Db = KeyedRow;
  find = find_keyed;
  update = update_keyed;
  find_pending = pending_keyed;
  find_updated = keyed_updated;
  pending_stored = keyed_stored;
  pending_open = keyed_open;
  pending_distinct = keyed_distinct;
  pending_few = keyed_few;
}

abbrev added_to : List String → Result (List String) → List String
added_to q (throws m) = q
added_to q (ok q') = q'

job_accepted :
    (n : QueueName) (j : Job) (q q' : List String)
    → ◌≡◌ {A = Result (List String)} (ok (add j.job_id q)) (ok q')
    → contains j.job_id q' ≡ true
job_accepted n j q q' h =
    ap (contains j.job_id) (sym (ap (added_to q) h))
    ∙ ground (arith, contains-add j.job_id j.job_id q, eq_refl j.job_id)

job_kept :
    (n m : QueueName) (j : Job) (k : String) (q q' : List String)
    → ◌≡◌ {A = Result (List String)} (ok (add j.job_id q)) (ok q')
    → contains k q ≡ true
    → contains k q' ≡ true
job_kept n m j k q q' h c =
    ap (contains k) (sym (ap (added_to q) h)) ∙ ground (arith, contains-add j.job_id k q)

abbrev remembering : Broker
remembering = record {
  Queues = List String;
  add_job = λ n j q. ok (add (Job.job_id j) q);
  is_accepted = λ n k q. contains k q;
  accepted_added = job_accepted;
  accepted_kept = job_kept;
}

abbrev suspended : OutboxRow
suspended = record {
  id = "e1";
  tenant_id = "t";
  event_type = "TenantSuspended";
  payload = Json.null;
  published = false;
  published_at = none;
  attempts = 9;
  last_error = none;
}

abbrev one_event : KeyedRow
one_event = some ("e1", suspended)

abbrev swept : Swept keyed_table remembering (ℕ × ℕ)
swept = record {
  db = some ("e1", publish_at 5 suspended);
  queues = "e1-identity-access" ∷ [];
  result = some (1, 0);
}

swept_lem : relay keyed_table remembering 5 one_event [] ≡ swept
unfolding relay relay_rows relay_row targets_of add_all_jobs add contains lookup
swept_lem = refl

one_event_delivered :
    (b : Bool) → IsRowDelivered keyed_table remembering [] (if b then some suspended else none)
one_event_delivered false = tt
one_event_delivered true = tt

relay-IsDelivered_example :
    IsDelivered keyed_table remembering
      (relay keyed_table remembering 5 one_event []).db
      (relay keyed_table remembering 5 one_event []).queues
relay-IsDelivered_example =
    relay-IsDelivered keyed_table remembering 5 one_event [] (λ k. one_event_delivered ("e1" === k))

keyed_works :
    (k : String) (f : OutboxRow → OutboxRow) (d : KeyedRow) (r : OutboxRow)
    → find_keyed k d ≡ some r
    → works (update_keyed k f d) ≡ true
keyed_works k f none r h = cc
keyed_works k f (some p) r h = refl

relay_handles_example :
    AreHandled keyed_table remembering 5
      (pending_keyed max_attempts batch_size one_event)
      (relay keyed_table remembering 5 one_event []).db
    × (is_some (relay keyed_table remembering 5 one_event []).result ≡ true)
relay_handles_example =
    relay_handles keyed_table remembering keyed_works (λ n j q. refl) 5 one_event []
