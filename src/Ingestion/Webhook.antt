-- ===== src/Ingestion/Webhook.antt =====
-- src/mailbox-ingestion: infrastructure/queue/webhook.worker.ts and
-- presentation/webhooks.controller.ts. What is emitted is returned; a throw of the database is `none`.
use volunteer_training.Prelude.{
  ◌≡◌, refl, true, Option, none, some, List, [], ◌∷◌, String, truthy, if◌then◌else◌,
}
use volunteer_training.Ingestion.Database.{Tables, run_in_tenant_transaction}
use volunteer_training.Ingestion.Connections.{
  ConnectionKey, connection_key_eq, MailboxConnection, find_by_tenant_id_and_mailbox_id,
}

-- `mailbox.delta-sync-requested`
pub record DeltaSync : Type 0 where
  pub tenant_id : String
  pub mailbox_connection_id : String

module _ (tables : Tables ConnectionKey MailboxConnection) where
  open tables use {Db, find, set_tenant}

  abbrev pub requests : String → Option (Option MailboxConnection) → Option (List DeltaSync)
  requests tenant_id none = none
  requests tenant_id (some none) = some []
  requests tenant_id (some (some c)) =
      some (record { tenant_id = tenant_id; mailbox_connection_id = c.id } ∷ [])

  unfoldable pub handle_webhook : ConnectionKey → Db → Option (List DeltaSync)
  unfolding find_by_tenant_id_and_mailbox_id
  handle_webhook k d = requests k.tenant_id (find_by_tenant_id_and_mailbox_id tables k d).0

  abbrev pub webhook_key : String → String → ConnectionKey
  webhook_key mailbox_id platform = record {
    tenant_id = "tenant-id";
    mailbox_id = mailbox_id;
    platform = platform;
  }

  abbrev pub handle_if : Option String → String → Db → Option (List DeltaSync)
  unfolding handle_webhook
  handle_if none platform d = some []
  handle_if (some mailbox) platform d =
      let handled = handle_webhook (webhook_key mailbox platform) d in
      if truthy (some mailbox) then handled else some []

  -- The address of the payload, and its `mailboxId`.
  unfoldable pub handle_gmail_webhook : Option String → Db → Option (List DeltaSync)
  unfolding handle_if
  handle_gmail_webhook email d = handle_if email "gmail" d

  unfoldable pub handle_outlook_webhook : Option String → Db → Option (List DeltaSync)
  unfolding handle_if
  handle_outlook_webhook mailbox_id d = handle_if mailbox_id "outlook" d

  -- A webhook asks for a sync of the connection of its mailbox, one request if the tenant has such a
  -- connection and none otherwise.
  handle_webhook_lem :
      (k : ConnectionKey) (d : Db)
      → set_tenant k.tenant_id d ≡ true
      → handle_webhook k d ≡ requests k.tenant_id (some (find k d))
  unfolding handle_webhook find_by_tenant_id_and_mailbox_id run_in_tenant_transaction
  handle_webhook_lem k d set = rw set refl

  -- The webhook of a mailbox asks for at most one sync, that of the connection which the tenant called
  -- "tenant-id" has for the mailbox: the connections of every other tenant are never synchronised,
  -- whatever the payload says.
  pub handle_gmail_webhook_lem :
      (email : String) (d : Db)
      → set_tenant "tenant-id" d ≡ true
      → truthy (some email) ≡ true
      → handle_gmail_webhook (some email) d
        ≡ requests "tenant-id" (some (find (webhook_key email "gmail") d))
  unfolding handle_gmail_webhook
  handle_gmail_webhook_lem email d set given =
      rw given (handle_webhook_lem (webhook_key email "gmail") d set)
