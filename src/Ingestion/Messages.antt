-- ===== src/Ingestion/Messages.antt =====
-- src/mailbox-ingestion/infrastructure/repositories/ingested-message.repository.ts: the save of a
-- message with its events and the reading of a message.
use volunteer_training.Prelude.{
  ◌≡◌, ◌↔◌, Bool, true, ◌&&◌, Option, none, some, List, String, string_eq, Eq, ◌===◌, arith,
}
use volunteer_training.Prelude.Attempt.{◌>>=◌}
use volunteer_training.Ingestion.Envelope.{MessageEnvelope}
use volunteer_training.Ingestion.Database.{
  OutboxEventInput, Tables, run_in_tenant_transaction, create_all,
}

-- The unique key of a message.
pub record IngestedKey : Type 0 where
  pub tenant_id : String
  pub platform_message_id : String
  pub platform : String
  pub mailbox_id : String

abbrev pub same_message : IngestedKey → IngestedKey → Bool
same_message a b =
    a.tenant_id === b.tenant_id
    && a.platform_message_id === b.platform_message_id
    && a.platform === b.platform
    && a.mailbox_id === b.mailbox_id

pub same_message_iff : (a b : IngestedKey) → (same_message a b ≡ true) ↔ (a ≡ b)
same_message_iff a b = ground (
  arith,
  string_eq.same_iff a.tenant_id b.tenant_id,
  string_eq.same_iff a.platform_message_id b.platform_message_id,
  string_eq.same_iff a.platform b.platform,
  string_eq.same_iff a.mailbox_id b.mailbox_id,
)

instance abbrev pub ingested_key_eq : Eq IngestedKey
ingested_key_eq = record { same = same_message; same_iff = same_message_iff }

pub record IngestedMessageData : Type 0 where
  pub key : IngestedKey
  pub message_id : String
  pub mailbox_connection_id : Option String
  pub normalized_envelope : MessageEnvelope
  pub body_ref_id : Option String

-- The columns beside the key.
pub record IngestedMessage : Type 0 where
  pub id : String
  pub message_id : String
  pub mailbox_connection_id : Option String
  pub normalized_envelope : MessageEnvelope
  pub body_ref_id : Option String

-- The row of a message, under an id that the database makes.
abbrev pub ingested_row : IngestedMessageData → String → IngestedMessage
ingested_row m made = record {
  id = made;
  message_id = m.message_id;
  mailbox_connection_id = m.mailbox_connection_id;
  normalized_envelope = m.normalized_envelope;
  body_ref_id = m.body_ref_id;
}

module _ (tables : Tables IngestedKey IngestedMessage) where
  open tables use {Db, find, events, set_tenant, write, find_written, events_written}

  abbrev pub find_message : IngestedKey → Db → Option (Option IngestedMessage × Db)
  find_message k d = some (find k d, d)

  -- The reading; what it throws and a message that is missing are both `none` here.
  unfoldable pub find_by_platform_message_id :
      IngestedKey → Db → Option (Option IngestedMessage) × Db
  unfolding run_in_tenant_transaction
  find_by_platform_message_id k d = run_in_tenant_transaction tables k.tenant_id (find_message k) d

  -- Where a row exists it is the result; otherwise the row is created and then the events.
  unfoldable pub save_new :
      IngestedMessageData
      → List OutboxEventInput
      → String
      → Option IngestedMessage
      → Db
      → Option (IngestedMessage × Db)
  unfolding create_all
  save_new m new made (some existing) d = some (existing, d)
  save_new m new made none d = write m.key (ingested_row m made) d >>= λ d1.
      create_all tables m.key.tenant_id new d1 >>= λ d2. some (ingested_row m made, d2)

  unfoldable pub save :
      IngestedMessageData → List OutboxEventInput → String → Db → Option IngestedMessage × Db
  unfolding run_in_tenant_transaction save_new
  save m new made d =
      run_in_tenant_transaction tables m.key.tenant_id (λ d. save_new m new made (find m.key d) d) d
