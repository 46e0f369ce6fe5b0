-- ===== src/Outbox/Sweep.antt =====
-- The loop of a sweep over the rows that it found: what each row's turn keeps, the sweep keeps.
use volunteer_training.Prelude.{
  ℕ, ◌≡◌, refl, ◌∙◌, false, Option, none, some, List, [], ◌∷◌, String, All, string_eq, ◌===◌,
}
use volunteer_training.Prelude.Result.{Result, ok, throws}
use volunteer_training.Outbox.Routing.{QueueName}
use volunteer_training.Outbox.Relay.{
  OutboxRow, OutboxTable, Broker, IsNew, HasDistinctIds, publish_at, fail_with, Fate, Swept,
  mark_failed, db_or, add_all_jobs, published, publish, no_route, route, relay_row, unless_thrown,
  relay_rows, relay, max_attempts, batch_size,
}
use volunteer_training.Outbox.Delivery.{IsDelivered, relay_row-IsDelivered}

module _ (table : OutboxTable) (broker : Broker) where
  open table use {
    Db, find, update, find_pending, find_updated, pending_stored, pending_open, pending_distinct,
    pending_few,
  }
  open broker use {Queues}

  update_other :
      (id k : String) (f : OutboxRow → OutboxRow) (d : Db) (x : Result Db)
      → update id f d ≡ x
      → id === k ≡ false
      → find k (db_or table broker d x) ≡ find k d
  update_other id k f d (throws m) e n = refl
  update_other id k f d (ok d') e n = find_updated id k f d d' e ∙ rw n

  mark_failed_other :
      (id message : String) (d : Db) (q : Queues) (k : String)
      → id === k ≡ false
      → find k (mark_failed table broker id message d q).db ≡ find k d
  unfolding mark_failed
  mark_failed_other id message d q k n = update_other id k (fail_with message) d _ refl n

  published_other :
      (r : OutboxRow) (now : ℕ) (d : Db) (q : Queues) (x : Result Db) (k : String)
      → update r.id (publish_at now) d ≡ x
      → r.id === k ≡ false
      → find k (published table broker r d q x).db ≡ find k d
  published_other r now d q (throws m) k e n = mark_failed_other r.id m d q k n
  published_other r now d q (ok d') k e n = update_other r.id k (publish_at now) d (ok d') e n

  route_other :
      (r : OutboxRow) (now : ℕ) (d : Db) (q : Queues) (t : Option (List QueueName)) (k : String)
      → r.id === k ≡ false
      → find k (route table broker r now d q t).db ≡ find k d
  route_other r now d q none k n = mark_failed_other r.id (no_route table broker r) d q k n
  route_other r now d q (some ns) k n =
      publish_other (add_all_jobs table broker ns r q).0 (add_all_jobs table broker ns r q).1
    where
      publish_other :
          (q' : Queues) (error : Option String)
          → find k (publish table broker r now d q' error).db ≡ find k d
      publish_other q' (some m) = mark_failed_other r.id m d q' k n
      publish_other q' none = published_other r now d q' _ k refl n

  -- A row's turn leaves the other rows as they are.
  pub relay_row_other :
      (r : OutboxRow) (now : ℕ) (d : Db) (q : Queues) (k : String)
      → r.id === k ≡ false
      → find k (relay_row table broker r now d q).db ≡ find k d
  unfolding relay_row
  relay_row_other r now d q k n = route_other r now d q _ k n

  -- The rows are stored as they were found.
  abbrev pub AreStored : List OutboxRow → Db → Type 0
  AreStored rs d = All (λ r. find (OutboxRow.id r) d ≡ some r) rs

  pub AreStored-relay_row :
      (r : OutboxRow) (now : ℕ) (d : Db) (q : Queues) (rs : List OutboxRow)
      → IsNew r.id rs
      → AreStored rs d
      → AreStored rs (relay_row table broker r now d q).db
  AreStored-relay_row r now d q [] n s = tt
  AreStored-relay_row r now d q (x ∷ rs) (n, ns) (s, ss) =
      (relay_row_other r now d q x.id n ∙ s, AreStored-relay_row r now d q rs ns ss)

  -- What every turn of a good row keeps, the loop keeps, also where it is left by a throw.
  module _ {ℓ} (P : Db → Queues → Type ℓ) (IsGood : OutboxRow → Type ℓ) (now : ℕ)
      (step : (r : OutboxRow) (d : Db) (q : Queues)
        → find r.id d ≡ some r
        → IsGood r
        → P d q
        → P (relay_row table broker r now d q).db (relay_row table broker r now d q).queues) where
    unless_thrown_keeps :
        (s : Swept table broker Fate) (o : Option Fate) (rest : Swept table broker (ℕ × ℕ))
        → P s.db s.queues
        → P rest.db rest.queues
        → P (unless_thrown table broker s o rest).db (unless_thrown table broker s o rest).queues
    unless_thrown_keeps s none rest h g = h
    unless_thrown_keeps s (some fate) rest h g = g

    pub relay_rows_keeps :
        (rs : List OutboxRow) (d : Db) (q : Queues) (counts : ℕ × ℕ)
        → AreStored rs d
        → HasDistinctIds rs
        → All IsGood rs
        → P d q
        → P
            (relay_rows table broker rs now d q counts).db
            (relay_rows table broker rs now d q counts).queues
    unfolding relay_rows
    relay_rows_keeps [] d q counts s n g h = h
    relay_rows_keeps (r ∷ rs) d q counts (s, ss) (n, ns) (g, gs) h =
        let turn = relay_row table broker r now d q in
        let h' = step r d q s g h in
        unless_thrown_keeps turn turn.result _ h'
          (relay_rows_keeps rs _ _ _ (AreStored-relay_row r now d q rs n ss) ns gs h')

  every_row {ℓ} : {A : Type ℓ} (xs : List A) → All (λ x. Unit {0}) xs
  every_row [] = tt
  every_row (x ∷ xs) = (tt, every_row xs)

  -- A sweep keeps it that every queue of a published row has accepted the row's job, whatever call
  -- of the table or the broker throws.
  pub relay-IsDelivered :
      (now : ℕ) (d : Db) (q : Queues)
      → IsDelivered table broker d q
      → IsDelivered table broker (relay table broker now d q).db (relay table broker now d q).queues
  unfolding relay
  relay-IsDelivered now d q h =
      relay_rows_keeps (IsDelivered table broker) (λ r. Unit) now
        (λ r d₁ q₁ own good. relay_row-IsDelivered table broker r now d₁ q₁ own)
        (find_pending max_attempts batch_size d) d q (0, 0)
        (pending_stored max_attempts batch_size d) (pending_distinct max_attempts batch_size d)
        (every_row (find_pending max_attempts batch_size d)) h
