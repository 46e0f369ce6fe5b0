-- ===== src/Api/Mailboxes.antt =====
-- src/api/v1/controllers/mailbox.controller.ts, over the table of connections that the ingestion
-- writes.
use Prim.Native.String.{◌++◌}
use volunteer_training.Prelude.{
  ℕ, ◌≡◌, refl, sym, ap, ◌∙◌, Bool, Bool-cases, ◌&&◌, inl, inr, true, false, Option, none, some,
  String, ◌===◌, string_eq, is_some, if◌then◌else◌,
}
use volunteer_training.Prelude.Result.{Result, ok, throws}
use volunteer_training.Ingestion.Database.{Tables}
use volunteer_training.Ingestion.Connections.{ConnectionKey, connection_key_eq, MailboxConnection}

-- What a response tells of a row: the row has no columns in snake case, so only these are there.
pub record MailboxConnectionDto : Type 0 where
  pub id : String
  pub mailbox_id : Option String
  pub platform : String
  pub status : String
  pub sync_failure_count : Option ℕ

abbrev pub to_mailbox_dto : ConnectionKey → MailboxConnection → MailboxConnectionDto
to_mailbox_dto k c = record {
  id = c.id;
  mailbox_id = none;
  platform = k.platform;
  status = c.status;
  sync_failure_count = none;
}

abbrev pub not_found_message : String
not_found_message = "Mailbox connection not found"

abbrev pub shown : ConnectionKey → Option MailboxConnection → Result MailboxConnectionDto
shown k none = throws not_found_message
shown k (some c) = ok (to_mailbox_dto k c)

abbrev pub gmail_key : String → String → ConnectionKey
gmail_key tenant mailbox = record { tenant_id = tenant; mailbox_id = mailbox; platform = "gmail" }

abbrev pub placeholder_key : String → String → ConnectionKey
placeholder_key tenant platform = record {
  tenant_id = tenant;
  mailbox_id = platform ++ ":placeholder";
  platform = platform;
}

abbrev pub placeholder_row : String → MailboxConnection
placeholder_row made = record {
  id = made;
  status = "active";
  watch_subscription_id = none;
  watch_expires_at = none;
  sync_cursor_value = none;
  credential_handle_id = "placeholder-handle";
  last_webhook_at = none;
  last_sync_at = none;
  sync_failure_count = 0;
}

abbrev pub revoked : MailboxConnection → MailboxConnection
revoked c = record c { status = "revoked" }

third_false : (a b c : Bool) → c ≡ false → (a && b && c) ≡ false
third_false false b c h = refl
third_false true false c h = refl
third_false true true c h = h

module _ (tables : Tables ConnectionKey MailboxConnection) where
  open tables use {Db, find, write, update, find_written}

  unfoldable pub get_mailbox_connection : String → String → Db → Result MailboxConnectionDto
  get_mailbox_connection tenant mailbox d =
      shown (gmail_key tenant mailbox) (find (gmail_key tenant mailbox) d)

  -- A create, which throws where the key is taken; the id and the status of the new row come with it.
  unfoldable pub connect_mailbox : String → String → String → Db → Option Db
  connect_mailbox tenant platform made d =
      let k = placeholder_key tenant platform in
      if is_some (find k d) then none else write k (placeholder_row made) d

  -- `first` is what `findFirst` returns for a tenant and a mailbox.
  unfoldable pub disconnect_mailbox :
      (String → String → Db → Option MailboxConnection) → String → String → Db → Result (Option Db)
  disconnect_mailbox first tenant mailbox d = elim (first tenant mailbox d) [
    | none ↦ throws not_found_message
    | some c ↦ ok (update c.id revoked d)
  ]

  -- A mailbox that was connected on a platform other than Gmail is not found: it is looked for among
  -- the Gmail connections only, where nothing is changed by the connection.
  pub get_mailbox_connection-connect_mailbox :
      (tenant platform made : String) (d d' : Db)
      → (platform === "gmail") ≡ false
      → connect_mailbox tenant platform made d ≡ some d'
      → (mailbox : String)
      → get_mailbox_connection tenant mailbox d' ≡ get_mailbox_connection tenant mailbox d
  unfolding get_mailbox_connection connect_mailbox
  get_mailbox_connection-connect_mailbox tenant platform made d d' other h mailbox =
      let k = placeholder_key tenant platform in
      let row = placeholder_row made in
      let g = gmail_key tenant mailbox in
      elim (Bool-cases (is_some (find k d))) [
        | inl taken ↦
            let threw : none ≡ some d' =
              sym (ap (λ b. if b then none else write k row d) taken) ∙ h in
            cc
        | inr free ↦
            let w : write k row d ≡ some d' =
              sym (ap (λ b. if b then none else write k row d) free) ∙ h in
            let apart =
              third_false (tenant === tenant) (k.mailbox_id === mailbox) (platform === "gmail")
                other in
            ap (shown g)
              (find_written k g row d d' w ∙ ap (λ b. if b then some row else find g d) apart)
      ]
