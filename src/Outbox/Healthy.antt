-- ===== src/Outbox/Healthy.antt =====
-- A sweep while every call of the table and the broker works.
use volunteer_training.Prelude.{
  ℕ, ◌≡◌, refl, sym, ap, ◌∙◌, Bool, true, false, Option, none, some, is_some, List, [], ◌∷◌, String,
  All, arith, string_eq,
}
use mathlib.Core.Path.{subst}
use text.Mathlib.TextEquality.{eq_iff}
use text.Mathlib.TextPositions.{eq_refl}
use volunteer_training.Prelude.Result.{Result, ok, throws}
use volunteer_training.Outbox.Routing.{QueueName, targets_of}
use volunteer_training.Outbox.Relay.{
  OutboxRow, OutboxTable, Broker, Job, IsNew, HasDistinctIds, map_row, job_of, publish_at,
  fail_with, Fate, Swept, mark_failed, db_or, fate_of, error_of, first_error, add_all_jobs,
  published, publish, no_route, route, relay_row, counted, unless_thrown, relay_rows, relay,
  max_attempts, batch_size,
}
use volunteer_training.Outbox.Sweep.{AreStored, relay_row_other, AreStored-relay_row}

abbrev pub works {ℓ} : {A : Type ℓ} → Result A → Bool
works (ok a) = true
works (throws message) = false

-- What becomes of a row: it is published if its event has an entry, else it has failed.
abbrev pub handled : OutboxTable → Broker → ℕ → OutboxRow → Option (List QueueName) → OutboxRow
handled table broker now r none = fail_with (no_route table broker r) r
handled table broker now r (some ns) = publish_at now r

-- The rows of a list, once the loop has gone over them.
abbrev pub AreHandled : (table : OutboxTable) → Broker → ℕ → List OutboxRow → table.Db → Type 0
AreHandled table broker now rs d =
    All
      (λ r.
        table.find (OutboxRow.id r) d
        ≡ some (handled table broker now r (targets_of (OutboxRow.event_type r))))
      rs

module _ (table : OutboxTable) (broker : Broker)
    (table_works : (k : String) (f : OutboxRow → OutboxRow) (d : table.Db) (r : OutboxRow)
      → table.find k d ≡ some r
      → works (table.update k f d) ≡ true)
    (broker_works : (n : QueueName) (j : Job) (q : broker.Queues)
      → works (broker.add_job n j q) ≡ true) where
  open table use {Db, find, update, find_pending, find_updated, pending_stored, pending_distinct}
  open broker use {Queues, add_job}

  no_error :
      (x : Result Queues) (later : Option String)
      → works x ≡ true
      → later ≡ none
      → first_error table broker (error_of table broker x) later ≡ none
  no_error (ok q) later w h = h
  no_error (throws m) later w h = cc

  add_all_jobs_works :
      (ns : List QueueName) (r : OutboxRow) (q : Queues)
      → (add_all_jobs table broker ns r q).1 ≡ none
  unfolding add_all_jobs
  add_all_jobs_works [] r q = refl
  add_all_jobs_works (n ∷ ns) r q =
      no_error (add_job n (job_of n r) q) _ (broker_works n (job_of n r) q)
        (add_all_jobs_works ns r _)

  -- A row's turn that ends well.
  abbrev EndsWell : OutboxRow → OutboxRow → Swept table broker Fate → Type 0
  EndsWell r r' s = (find r.id s.db ≡ some r') × (is_some s.result ≡ true)

  own_row :
      (r : OutboxRow) (f : OutboxRow → OutboxRow) (d d' : Db)
      → find r.id d ≡ some r
      → update r.id f d ≡ ok d'
      → find r.id d' ≡ some (f r)
  own_row r f d d' own e = find_updated r.id r.id f d d' e ∙ rw (eq_refl r.id) (ap (map_row f) own)

  updated-EndsWell :
      (r : OutboxRow) (f : OutboxRow → OutboxRow) (d : Db) (x : Result Db)
      → find r.id d ≡ some r
      → update r.id f d ≡ x
      → works x ≡ true
      → (find r.id (db_or table broker d x) ≡ some (f r))
        × (is_some (fate_of table broker x) ≡ true)
  updated-EndsWell r f d (throws m) own e w = cc
  updated-EndsWell r f d (ok d') own e w = (own_row r f d d' own e, refl)

  published-EndsWell :
      (r : OutboxRow) (now : ℕ) (d : Db) (q : Queues) (x : Result Db)
      → find r.id d ≡ some r
      → update r.id (publish_at now) d ≡ x
      → works x ≡ true
      → EndsWell r (publish_at now r) (published table broker r d q x)
  published-EndsWell r now d q (throws m) own e w = cc
  published-EndsWell r now d q (ok d') own e w = (own_row r (publish_at now) d d' own e, refl)

  publish-EndsWell :
      (r : OutboxRow) (now : ℕ) (d : Db) (q : Queues) (error : Option String)
      → find r.id d ≡ some r
      → error ≡ none
      → EndsWell r (publish_at now r) (publish table broker r now d q error)
  publish-EndsWell r now d q (some m) own h = cc
  publish-EndsWell r now d q none own h =
      published-EndsWell r now d q _ own refl (table_works r.id (publish_at now) d r own)

  route-EndsWell :
      (r : OutboxRow) (now : ℕ) (d : Db) (q : Queues) (t : Option (List QueueName))
      → find r.id d ≡ some r
      → EndsWell r (handled table broker now r t) (route table broker r now d q t)
  unfolding mark_failed
  route-EndsWell r now d q none own =
      updated-EndsWell r (fail_with (no_route table broker r)) d _ own refl
        (table_works r.id _ d r own)
  route-EndsWell r now d q (some ns) own =
      publish-EndsWell r now d _ _ own (add_all_jobs_works ns r q)

  relay_row-EndsWell :
      (r : OutboxRow) (now : ℕ) (d : Db) (q : Queues)
      → find r.id d ≡ some r
      → EndsWell r
          (handled table broker now r (targets_of r.event_type))
          (relay_row table broker r now d q)
  unfolding relay_row
  relay_row-EndsWell r now d q own = route-EndsWell r now d q _ own

  unless_thrown_works :
      (s : Swept table broker Fate) (o : Option Fate) (rest : Swept table broker (ℕ × ℕ))
      → is_some o ≡ true
      → unless_thrown table broker s o rest ≡ rest
  unless_thrown_works s none rest h = cc
  unless_thrown_works s (some fate) rest h = refl

  later_row :
      (rs : List OutboxRow) (now : ℕ) (d : Db) (q : Queues) (counts : ℕ × ℕ) (k : String)
      → AreStored table broker rs d
      → HasDistinctIds rs
      → IsNew k rs
      → find k (relay_rows table broker rs now d q counts).db ≡ find k d
  unfolding relay_rows
  later_row [] now d q counts k s n new = refl
  later_row (r ∷ rs) now d q counts k (s, ss) (n, ns) (new, news) =
      let turn = relay_row table broker r now d q in
      let well = relay_row-EndsWell r now d q s in
      ap (λ x. find k (Swept.db x)) (unless_thrown_works turn turn.result _ well.1)
      ∙ later_row rs now turn.db turn.queues _ k
          (AreStored-relay_row table broker r now d q rs n ss) ns news
      ∙ relay_row_other table broker r now d q k (ground (arith, eq_iff k r.id, eq_iff r.id k))

  relay_rows_handle :
      (rs : List OutboxRow) (now : ℕ) (d : Db) (q : Queues) (counts : ℕ × ℕ)
      → AreStored table broker rs d
      → HasDistinctIds rs
      → AreHandled table broker now rs (relay_rows table broker rs now d q counts).db
        × (is_some (relay_rows table broker rs now d q counts).result ≡ true)
  unfolding relay_rows
  relay_rows_handle [] now d q counts s n = (tt, refl)
  relay_rows_handle (r ∷ rs) now d q counts (s, ss) (n, ns) =
      let turn = relay_row table broker r now d q in
      let (own, done) = relay_row-EndsWell r now d q s in
      let kept = AreStored-relay_row table broker r now d q rs n ss in
      let (rest, returned) =
        relay_rows_handle rs now turn.db turn.queues (counted table broker turn.result counts) kept
          ns in
      subst
        (λ s'.
          AreHandled table broker now (r ∷ rs) (Swept.db s') × (is_some (Swept.result s') ≡ true))
        (sym (unless_thrown_works turn turn.result _ done))
        ((later_row rs now turn.db turn.queues _ r.id kept ns n ∙ own, rest), returned)

  -- While every update of a stored row and every add of a job works, a sweep returns, and afterwards every row that it found is
  -- published if its event has an entry in the routing table, and has failed once more if not.
  pub relay_handles :
      (now : ℕ) (d : Db) (q : Queues)
      → AreHandled table broker now
          (find_pending max_attempts batch_size d)
          (relay table broker now d q).db
        × (is_some (relay table broker now d q).result ≡ true)
  unfolding relay
  relay_handles now d q =
      relay_rows_handle (find_pending max_attempts batch_size d) now d q (0, 0)
        (pending_stored max_attempts batch_size d) (pending_distinct max_attempts batch_size d)
