-- ===== src/Outbox/Attempts.antt =====
-- How often a row fails, and what a sweep counts.
use volunteer_training.Prelude.{
  ℕ, ◌≡◌, ◌+◌, ◌≤◌, ap, Option, none, some, List, [], ◌∷◌, String, length, arith, string_eq,
}
use volunteer_training.Prelude.Result.{Result}
use volunteer_training.Outbox.Relay.{
  OutboxRow, OutboxTable, Broker, Fate, relayed, failed, Swept, relay_row, count, counted,
  unless_thrown, relay_rows, relay, max_attempts, batch_size,
}

module _ (table : OutboxTable) (broker : Broker) where
  open table use {
    Db, find, update, find_pending, find_updated, pending_stored, pending_open, pending_distinct,
    pending_few,
  }
  open broker use {Queues}

  abbrev pub Within : Option OutboxRow → Type 0
  Within none = Unit
  Within (some r) = r.attempts ≤ max_attempts

  -- No row has failed more often than it is tried.
  abbrev pub AttemptsAreBounded : Db → Type 0
  AttemptsAreBounded d = (k : String) → Within (find k d)

  total : ℕ × ℕ → ℕ
  total (n, m) = n + m

  module _ (now : ℕ) where
    total-count :
        (fate : Fate) (counts : ℕ × ℕ) → total (count table broker fate counts) ≡ 1 + total counts
    unfolding total
    total-count relayed counts = omega arith
    total-count failed counts = omega arith

    abbrev result_of : Option (ℕ × ℕ) → ℕ
    result_of none = 0
    result_of (some counts) = total counts

    unless_thrown-total :
        (n : ℕ) (s : Swept table broker Fate) (o : Option Fate) (rest : Swept table broker (ℕ × ℕ))
        (counts result : ℕ × ℕ)
        → (rest.result ≡ some result → total result ≡ n + total (counted table broker o counts))
        → (unless_thrown table broker s o rest).result ≡ some result
        → total result ≡ 1 + n + total counts
    unless_thrown-total n s none rest counts result ih h = cc
    unless_thrown-total n s (some fate) rest counts result ih h =
        omega (arith, ih h, total-count fate counts)

    relay_rows-total :
        (rs : List OutboxRow) (d : Db) (q : Queues) (counts result : ℕ × ℕ)
        → (relay_rows table broker rs now d q counts).result ≡ some result
        → total result ≡ length rs + total counts
    unfolding relay_rows
    relay_rows-total [] d q counts result h = omega (arith, ap result_of h)
    relay_rows-total (r ∷ rs) d q counts result h =
        let turn = relay_row table broker r now d q in
        omega (
          arith,
          unless_thrown-total (length rs) turn turn.result _ counts result
              (relay_rows-total rs turn.db turn.queues _ result) h,
        )

  -- A sweep that returns has counted every row that it found once, as relayed or as failed, and
  -- these are at most a batch.
  pub relay_counts :
      (now : ℕ) (d : Db) (q : Queues) (n m : ℕ)
      → (relay table broker now d q).result ≡ some (n, m)
      → (n + m ≡ length (find_pending max_attempts batch_size d)) × (n + m ≤ batch_size)
  unfolding relay total
  relay_counts now d q n m h =
      let rows = find_pending max_attempts batch_size d in
      let all = relay_rows-total now rows d q (0, 0) (n, m) h in
      (omega arith, omega (arith, pending_few max_attempts batch_size d))
