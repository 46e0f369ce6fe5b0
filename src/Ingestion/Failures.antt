-- ===== src/Ingestion/Failures.antt =====
-- What becomes of a connection over any history of the repository's calls.
use volunteer_training.Prelude.{
  ℕ, ◌≤◌, ◌≡◌, inl, inr, refl, sym, ap, ◌∙◌, Bool-cases, Option, none, some, List, [], ◌∷◌, String,
  string_eq, ◌===◌, if◌then◌else◌, arith,
}
use mathlib.Core.Path.{subst}
use volunteer_training.Prelude.Attempt.{◌>>=◌, >>=-eq-some}
use volunteer_training.Prelude.Store.{map_row}
use volunteer_training.Ingestion.Database.{
  OutboxEventInput, Tables, run_in_tenant_transaction, run_in_tenant_transaction_lem, create_all,
  create_all_lem,
}
use volunteer_training.Ingestion.Connections.{
  ConnectionKey, connection_key_eq, same_connection, MailboxConnectionData, MailboxConnection,
  with_data, upserted, with_cursor, with_failure, done, update_sync_cursor, increment_failure_count,
  save,
}

module _ (tables : Tables ConnectionKey MailboxConnection) where
  open tables use {Db, find, set_tenant, write, update, find_written, find_updated, id_of}

  pub data Call : Type 0 where
    saves : MailboxConnectionData → List OutboxEventInput → String → Call
    moves : String → String → String → ℕ → Call
    fails : String → String → Call

  abbrev pub step : Call → Db → Db
  step (saves c new made) d = (save tables c new made d).1
  step (moves tenant id cursor now) d = (update_sync_cursor tables tenant id cursor now d).1
  step (fails tenant id) d = (increment_failure_count tables tenant id d).1

  abbrev pub run : List Call → Db → Db
  run [] d = d
  run (c ∷ cs) d = run cs (step c d)

  -- A row with the same id is there, with no fewer failures.
  abbrev pub Remains : MailboxConnection → Option MailboxConnection → Type 0
  Remains old none = ⊥
  Remains old (some new) = (new.id ≡ old.id) × (old.sync_failure_count ≤ new.sync_failure_count)

  Remains-trans :
      (a b : MailboxConnection) (o : Option MailboxConnection)
      → Remains a (some b)
      → Remains b o
      → Remains a o
  Remains-trans a b none g h = elim h [ ]
  Remains-trans a b (some c) (i, n) (j, m) = (j ∙ i, omega (arith, n, m))

  updated_Remains :
      (id : String) (f : MailboxConnection → MailboxConnection)
      → ((c : MailboxConnection) → Remains c (some (f c)))
      → (k : ConnectionKey) (old : MailboxConnection) (d d' : Db) → find k d ≡ some old
      → update id f d ≡ some d'
      → Remains old (find k d')
  updated_Remains id f keeps k old d d' h u =
      let there =
        find_updated id f k d d' u ∙ ap (map_row (λ r. if id_of r === id then f r else r)) h in
      rw there (elim (Bool-cases (id_of old === id)) [
        | inl same ↦ rw same (keeps old)
        | inr other ↦ rw other (refl, omega arith)
      ])

  abbrev db_of : {A : Type 0} → Db → Option (A × Db) → Db
  db_of d none = d
  db_of d (some (a, d')) = d'

  updates_Remains :
      (tenant id : String) (f : MailboxConnection → MailboxConnection)
      → ((c : MailboxConnection) → Remains c (some (f c)))
      → (k : ConnectionKey) (old : MailboxConnection) (d : Db) → find k d ≡ some old
      → Remains old (
          find k (run_in_tenant_transaction tables tenant (λ d. update id f d >>= done tables) d).1)
  updates_Remains tenant id f keeps k old d h =
      run_in_tenant_transaction_lem tables (λ d. Remains old (find k d)) tenant
        (λ d. update id f d >>= done tables) d (rw h (refl, omega arith))
        (λ a d' w.
          let (d1, u, e) = >>=-eq-some (update id f d) (done tables) w in
          subst (λ d. Remains old (find k d)) (ap (db_of d) e)
            (updated_Remains id f keeps k old d d1 h u))

  written_Remains :
      (c : MailboxConnectionData) (made : String) (k : ConnectionKey) (old : MailboxConnection)
      (d d' : Db)
      → find k d ≡ some old
      → find k d' ≡ (if c.key === k then some (upserted c made (find c.key d)) else find k d)
      → Remains old (find k d')
  unfolding upserted
  written_Remains c made k old d d' h there = elim (Bool-cases (same_connection c.key k)) [
    | inl same ↦
        let key = (connection_key_eq.same_iff c.key k).0 same in
        let own =
          ap (λ j. some (upserted c made (find j d))) key ∙ ap (λ o. some (upserted c made o)) h in
        let row : find k d' ≡ some (with_data c old.id old.sync_failure_count) =
          there
          ∙ ap (λ b. if b then some (upserted c made (find c.key d)) else find k d) same
          ∙ own in
        rw row (refl, omega arith)
    | inr other ↦
        let row : find k d' ≡ some old =
          there
          ∙ ap (λ b. if b then some (upserted c made (find c.key d)) else find k d) other
          ∙ h in
        rw row (refl, omega arith)
  ]

  step-Remains :
      (c : Call) (k : ConnectionKey) (old : MailboxConnection) (d : Db)
      → find k d ≡ some old
      → Remains old (find k (step c d))
  unfolding save update_sync_cursor increment_failure_count run_in_tenant_transaction
  step-Remains (saves c new made) k old d h =
      let row = upserted c made (find c.key d) in
      let add = λ (d1 : Db). create_all tables c.key.tenant_id new d1 >>= λ d2. some (row, d2) in
      run_in_tenant_transaction_lem tables (λ d. Remains old (find k d)) c.key.tenant_id
        (λ d. write c.key (upserted c made (find c.key d)) d >>= λ d1.
          create_all tables c.key.tenant_id new d1 >>= λ d2.
          some (upserted c made (find c.key d), d2))
        d (rw h (refl, omega arith))
        (λ a d' w.
          let (d1, wrote, rest) = >>=-eq-some (write c.key row d) add w in
          let (d2, created, e) =
            >>=-eq-some (create_all tables c.key.tenant_id new d1) (λ d2. some (row, d2)) rest in
          let found = (create_all_lem tables c.key.tenant_id new d1 d2 created).0 k in
          subst (λ d. Remains old (find k d)) (ap (db_of d) e)
            (written_Remains c made k old d d2 h (found ∙ find_written c.key k row d d1 wrote)))
  step-Remains (moves tenant id cursor now) k old d h =
      updates_Remains tenant id (with_cursor cursor now) (λ c. (refl, omega arith)) k old d h
  step-Remains (fails tenant id) k old d h =
      updates_Remains tenant id with_failure (λ c. (refl, omega arith)) k old d h

  run_lem :
      (cs : List Call) (k : ConnectionKey) (old : MailboxConnection) (d : Db)
      (o : Option MailboxConnection)
      → find k d ≡ o
      → Remains old o
      → Remains old (find k (run cs d))
  run_lem [] k old d o h r = subst (Remains old) (sym h) r
  run_lem (c ∷ cs) k old d none h r = elim r [ ]
  run_lem (c ∷ cs) k old d (some now) h r =
      run_lem cs k old (step c d) (find k (step c d)) refl
        (Remains-trans old now (find k (step c d)) r (step-Remains c k now d h))

  -- A connection that is there stays there under its id over any history of saves, moves of the cursor
  -- and failures, and its count of failures never falls: no save and no success resets it.
  pub run-Remains :
      (cs : List Call) (k : ConnectionKey) (old : MailboxConnection) (d : Db)
      → find k d ≡ some old
      → Remains old (find k (run cs d))
  run-Remains cs k old d h = run_lem cs k old d (some old) h (refl, omega arith)
