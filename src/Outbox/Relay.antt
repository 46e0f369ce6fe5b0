-- ===== src/Outbox/Relay.antt =====
-- src/queue/outbox-relay.worker.ts. The table of events and the message broker are parameters; a
-- sweep returns the table and the broker that it leaves, and its counts unless it throws.
use Prim.Native.String.{◌++◌}
use volunteer_training.Prelude.{
  ℕ, ◌+◌, ◌<◌, ◌≤◌, ◌≡◌, Bool, true, false, Option, none, some, List, [], ◌∷◌, String, length, take,
  All, if◌then◌else◌, string_eq, ◌===◌,
}
use volunteer_training.Prelude.Json.{Json}
use volunteer_training.Prelude.Text.{utf16}
use volunteer_training.Prelude.Result.{Result, ok, throws}
use volunteer_training.Outbox.Routing.{QueueName, queue_text, targets_of}

abbrev pub batch_size : ℕ
batch_size = 50

abbrev pub max_attempts : ℕ
max_attempts = 10

pub record OutboxRow : Type 0 where
  pub id : String
  pub tenant_id : String
  pub event_type : String
  pub payload : Json
  pub published : Bool
  pub published_at : Option ℕ
  pub attempts : ℕ
  -- As UTF-16 code units, since `slice` may cut a pair of them.
  pub last_error : Option (List ℕ)

pub record Job : Type 0 where
  pub job_id : String
  pub name : String
  pub outbox_event_id : String
  pub tenant_id : String
  pub event_type : String
  pub payload : Json

-- Whether an id is none of the ids of some rows.
abbrev pub IsNew : String → List OutboxRow → Type 0
IsNew k rs = All (λ r. k === OutboxRow.id r ≡ false) rs

abbrev pub HasDistinctIds : List OutboxRow → Type 0
HasDistinctIds [] = Unit
HasDistinctIds (r ∷ rs) = IsNew r.id rs × HasDistinctIds rs

abbrev pub map_row : (OutboxRow → OutboxRow) → Option OutboxRow → Option OutboxRow
map_row f none = none
map_row f (some r) = some (f r)

-- `domain_event_outbox`. Its documented behaviour: an update changes the row of one id, and the
-- rows that a query finds are stored under distinct ids, meet the condition and are no more than
-- asked for.
pub record OutboxTable : Type 1 where
  pub Db : Type 0
  pub find : String → Db → Option OutboxRow
  pub update : String → (OutboxRow → OutboxRow) → Db → Result Db
  -- `findMany` of the unpublished rows with fewer attempts than given, of which the oldest are taken.
  pub find_pending : ℕ → ℕ → Db → List OutboxRow
  pub find_updated :
      (k j : String) (f : OutboxRow → OutboxRow) (d d' : Db)
      → update k f d ≡ ok d'
      → find j d' ≡ (if k === j then map_row f (find j d) else find j d)
  pub pending_stored :
      (limit count : ℕ) (d : Db)
      → All (λ r. find (OutboxRow.id r) d ≡ some r) (find_pending limit count d)
  pub pending_open :
      (limit count : ℕ) (d : Db)
      → All
          (λ r. (OutboxRow.published r ≡ false) × (OutboxRow.attempts r < limit))
          (find_pending limit count d)
  pub pending_distinct : (limit count : ℕ) (d : Db) → HasDistinctIds (find_pending limit count d)
  pub pending_few : (limit count : ℕ) (d : Db) → length (find_pending limit count d) ≤ count

-- The queues. A job that is added is accepted for good, and so is every job before it.
pub record Broker : Type 1 where
  pub Queues : Type 0
  pub add_job : QueueName → Job → Queues → Result Queues
  pub is_accepted : QueueName → String → Queues → Bool
  pub accepted_added :
      (n : QueueName) (j : Job) (q q' : Queues)
      → add_job n j q ≡ ok q'
      → is_accepted n (Job.job_id j) q' ≡ true
  pub accepted_kept :
      (n m : QueueName) (j : Job) (k : String) (q q' : Queues)
      → add_job n j q ≡ ok q'
      → is_accepted m k q ≡ true
      → is_accepted m k q' ≡ true

abbrev pub job_id_of : QueueName → String → String
job_id_of n id = id ++ ("-" ++ queue_text n)

abbrev pub job_of : QueueName → OutboxRow → Job
job_of n r = record {
  job_id = job_id_of n r.id;
  name = r.event_type;
  outbox_event_id = r.id;
  tenant_id = r.tenant_id;
  event_type = r.event_type;
  payload = r.payload;
}

abbrev pub publish_at : ℕ → OutboxRow → OutboxRow
publish_at now r = record r { published = true; published_at = some now }

abbrev pub fail_with : String → OutboxRow → OutboxRow
fail_with message r = record r {
  attempts = r.attempts + 1;
  last_error = some (take 2000 (utf16 message));
}

-- What became of a row.
pub data Fate : Type 0 where
  relayed failed : Fate

module _ (table : OutboxTable) (broker : Broker) where
  open table use {Db, update, find_pending}
  open broker use {Queues, add_job}

  -- The table and the queues after some work, and its result unless it throws.
  pub record Swept {ℓ} (A : Type ℓ) : Type ℓ where
    pub db : Db
    pub queues : Queues
    pub result : Option A

  abbrev pub db_or : Db → Result Db → Db
  db_or d (throws message) = d
  db_or d (ok d') = d'

  abbrev pub fate_of : Result Db → Option Fate
  fate_of (throws message) = none
  fate_of (ok d') = some failed

  unfoldable pub mark_failed : String → String → Db → Queues → Swept Fate
  mark_failed id message d q =
      let updated = update id (fail_with message) d in
      record { db = db_or d updated; queues = q; result = fate_of updated }

  abbrev pub queues_or : Queues → Result Queues → Queues
  queues_or q (throws message) = q
  queues_or q (ok q') = q'

  abbrev pub error_of : Result Queues → Option String
  error_of (throws message) = some message
  error_of (ok q') = none

  abbrev pub first_error : Option String → Option String → Option String
  first_error none later = later
  first_error (some message) later = some message

  -- `Promise.all` of the calls of `add`: all are made, and the first error is the error.
  unfoldable pub add_all_jobs : List QueueName → OutboxRow → Queues → Queues × Option String
  add_all_jobs [] r q = (q, none)
  add_all_jobs (n ∷ ns) r q =
      let added = add_job n (job_of n r) q in
      let rest = add_all_jobs ns r (queues_or q added) in
      (rest.0, first_error (error_of added) rest.1)

  -- The update to published, inside the `try`.
  abbrev pub published : OutboxRow → Db → Queues → Result Db → Swept Fate
  published r d q (ok d') = record { db = d'; queues = q; result = some relayed }
  published r d q (throws message) = mark_failed r.id message d q

  abbrev pub publish : OutboxRow → ℕ → Db → Queues → Option String → Swept Fate
  publish r now d q (some message) = mark_failed r.id message d q
  publish r now d q none = published r d q (update r.id (publish_at now) d)

  abbrev pub no_route : OutboxRow → String
  no_route r = "No routing entry for event type \"" ++ (r.event_type ++ "\"")

  abbrev pub route : OutboxRow → ℕ → Db → Queues → Option (List QueueName) → Swept Fate
  route r now d q none = mark_failed r.id (no_route r) d q
  route r now d q (some targets) =
      let (q', error) = add_all_jobs targets r q in publish r now d q' error

  -- The body of the loop.
  unfoldable pub relay_row : OutboxRow → ℕ → Db → Queues → Swept Fate
  relay_row r now d q = route r now d q (targets_of r.event_type)

  abbrev pub count : Fate → ℕ × ℕ → ℕ × ℕ
  count relayed (n, m) = (n + 1, m)
  count failed (n, m) = (n, m + 1)

  abbrev pub counted : Option Fate → ℕ × ℕ → ℕ × ℕ
  counted none counts = counts
  counted (some fate) counts = count fate counts

  -- A throw of `markFailed` leaves the loop.
  abbrev pub unless_thrown : Swept Fate → Option Fate → Swept (ℕ × ℕ) → Swept (ℕ × ℕ)
  unless_thrown s none rest = record { db = s.db; queues = s.queues; result = none }
  unless_thrown s (some fate) rest = rest

  unfoldable pub relay_rows : List OutboxRow → ℕ → Db → Queues → ℕ × ℕ → Swept (ℕ × ℕ)
  relay_rows [] now d q counts = record { db = d; queues = q; result = some counts }
  relay_rows (r ∷ rs) now d q counts =
      let s = relay_row r now d q in
      let rest = relay_rows rs now s.db s.queues (counted s.result counts) in
      unless_thrown s s.result rest

  unfoldable pub relay : ℕ → Db → Queues → Swept (ℕ × ℕ)
  relay now d q = relay_rows (find_pending max_attempts batch_size d) now d q (0, 0)
