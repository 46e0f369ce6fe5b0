-- ===== src/Ingestion/Connections.antt =====
-- src/mailbox-ingestion/infrastructure/repositories/mailbox-connection.repository.ts
use volunteer_training.Prelude.{
  ℕ, ◌+◌, ◌≡◌, ◌↔◌, Bool, true, ◌&&◌, Option, none, some, List, String, string_eq, Eq, ◌===◌, arith,
}
use volunteer_training.Prelude.Attempt.{◌>>=◌}
use volunteer_training.Ingestion.Envelope.{or_default}
use volunteer_training.Ingestion.Database.{
  OutboxEventInput, Tables, run_in_tenant_transaction, create_all,
}

pub record ConnectionKey : Type 0 where
  pub tenant_id : String
  pub mailbox_id : String
  pub platform : String

abbrev pub same_connection : ConnectionKey → ConnectionKey → Bool
same_connection a b =
    a.tenant_id === b.tenant_id && a.mailbox_id === b.mailbox_id && a.platform === b.platform

pub same_connection_iff : (a b : ConnectionKey) → (same_connection a b ≡ true) ↔ (a ≡ b)
same_connection_iff a b = ground (
  arith,
  string_eq.same_iff a.tenant_id b.tenant_id,
  string_eq.same_iff a.mailbox_id b.mailbox_id,
  string_eq.same_iff a.platform b.platform,
)

instance abbrev pub connection_key_eq : Eq ConnectionKey
connection_key_eq = record { same = same_connection; same_iff = same_connection_iff }

pub record MailboxConnectionData : Type 0 where
  pub key : ConnectionKey
  pub status : Option String
  pub watch_subscription_id : Option String
  pub watch_expires_at : Option ℕ
  pub sync_cursor_value : Option String
  pub credential_handle_id : String
  pub last_webhook_at : Option ℕ
  pub last_sync_at : Option ℕ
  pub sync_failure_count : Option ℕ

-- The columns beside the key.
pub record MailboxConnection : Type 0 where
  pub id : String
  pub status : String
  pub watch_subscription_id : Option String
  pub watch_expires_at : Option ℕ
  pub sync_cursor_value : Option String
  pub credential_handle_id : String
  pub last_webhook_at : Option ℕ
  pub last_sync_at : Option ℕ
  pub sync_failure_count : ℕ

-- The row with the columns that both branches of the upsert set.
abbrev pub with_data : MailboxConnectionData → String → ℕ → MailboxConnection
with_data c id failures = record {
  id = id;
  status = or_default "active" c.status;
  watch_subscription_id = c.watch_subscription_id;
  watch_expires_at = c.watch_expires_at;
  sync_cursor_value = c.sync_cursor_value;
  credential_handle_id = c.credential_handle_id;
  last_webhook_at = c.last_webhook_at;
  last_sync_at = c.last_sync_at;
  sync_failure_count = failures;
}

-- The upsert: a new row under an id that the database makes, or the update of the one that is there,
-- which does not set the count of failures.
unfoldable pub upserted :
    MailboxConnectionData → String → Option MailboxConnection → MailboxConnection
upserted c made none = with_data c made (or_default 0 c.sync_failure_count)
upserted c made (some old) = with_data c old.id old.sync_failure_count

abbrev pub with_cursor : String → ℕ → MailboxConnection → MailboxConnection
with_cursor cursor now c = record c { sync_cursor_value = some cursor; last_sync_at = some now }

abbrev pub with_failure : MailboxConnection → MailboxConnection
with_failure c = record c { sync_failure_count = c.sync_failure_count + 1 }

module _ (tables : Tables ConnectionKey MailboxConnection) where
  open tables use {Db, find, write, update}

  abbrev pub find_connection : ConnectionKey → Db → Option (Option MailboxConnection × Db)
  find_connection k d = some (find k d, d)

  unfoldable pub find_by_tenant_id_and_mailbox_id :
      ConnectionKey → Db → Option (Option MailboxConnection) × Db
  unfolding run_in_tenant_transaction
  find_by_tenant_id_and_mailbox_id k d =
      run_in_tenant_transaction tables k.tenant_id (find_connection k) d

  abbrev pub done : Db → Option (Bool × Db)
  done d = some (true, d)

  -- The writes are returned with `true`; a throw, that of an id without a row included, is `none`.
  unfoldable pub update_sync_cursor : String → String → String → ℕ → Db → Option Bool × Db
  unfolding run_in_tenant_transaction
  update_sync_cursor tenant_id id cursor now d =
      run_in_tenant_transaction tables tenant_id
        (λ d. update id (with_cursor cursor now) d >>= done) d

  unfoldable pub increment_failure_count : String → String → Db → Option Bool × Db
  unfolding run_in_tenant_transaction
  increment_failure_count tenant_id id d =
      run_in_tenant_transaction tables tenant_id (λ d. update id with_failure d >>= done) d

  unfoldable pub save :
      MailboxConnectionData → List OutboxEventInput → String → Db → Option MailboxConnection × Db
  unfolding run_in_tenant_transaction create_all upserted
  save c new made d =
      run_in_tenant_transaction tables c.key.tenant_id
        (λ d.
          let row = upserted c made (find c.key d) in
          write c.key row d >>= λ d1.
          create_all tables c.key.tenant_id new d1 >>= λ d2. some (row, d2))
        d
