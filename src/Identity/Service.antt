-- ===== src/Identity/Service.antt =====
-- The repository (src/identity-access/infrastructure/repositories/mailbox-authorization.repository.ts)
-- and the service (src/identity-access/application/mailbox-authorization.service.ts). The database
-- and the two OAuth providers are parameters; a service call returns, beside the new database, the
-- events that it emitted and the credentials that it had the providers revoke.
use volunteer_training.Prelude.{
  ℕ, Bool, true, false, Option, none, some, List, [], ◌∷◌, String, if◌then◌else◌,
}
use volunteer_training.Prelude.Result.{Result, ok, throws, ◌>>=◌}
use volunteer_training.Identity.ScopeSet.{Platform, gmail, outlook, scope_set}
use volunteer_training.Identity.Authorization.{
  Status, active, RevocationReason, DomainEvent, mailbox_authorized, MailboxAuthorization, create,
  revoke, clear_domain_events,
}

pub record AuthorizationKey : Type 0 where
  pub tenant_id : String
  pub user_id : String
  pub mailbox_id : String
  pub platform : Platform

pub record AuthorizationRow : Type 0 where
  pub id : String
  pub key : AuthorizationKey
  pub scopes : List String
  pub credential_handle : String
  pub consent_granted_at : ℕ
  pub status : Status

-- `create` of the upsert: the database makes the id.
pub record NewAuthorization : Type 0 where
  pub key : AuthorizationKey
  pub scopes : List String
  pub credential_handle : String
  pub consent_granted_at : ℕ
  pub status : Status

-- The two tables, as the repository calls them. `none` is a throw.
pub record AuthorizationDb : Type 1 where
  pub Db : Type 0
  -- `upsert`: the row to create, the status to update to, and the time of the update.
  pub upsert : NewAuthorization → Status → ℕ → Db → Option Db
  -- `findUnique` by the key and, if a row is found, `consentGrant.create`.
  pub create_grant : AuthorizationKey → List String → ℕ → Db → Option Db
  -- `findFirst` by tenant and mailbox.
  pub find_first : String → String → Db → Option AuthorizationRow
  -- `findMany` of the tenant's active rows.
  pub find_active : String → Db → List AuthorizationRow
  -- `updateMany` of the tenant's active rows to revoked.
  pub revoke_active : String → ℕ → Db → Option Db

abbrev pub database_message : String
database_message = "database"

abbrev pub or_throw {ℓ} : {A : Type ℓ} → Option A → Result A
or_throw none = throws database_message
or_throw (some a) = ok a

-- `events.find(e => e.constructor.name === 'MailboxAuthorizedEvent')`, and its scopes.
abbrev pub consent_grant : List DomainEvent → Option (List String)
consent_grant [] = none
consent_grant (mailbox_authorized t u m p scopes ∷ es) = some scopes
consent_grant (_ ∷ es) = consent_grant es

-- The aggregate of a row, whose constructor checks the scopes.
unfoldable pub of_row : AuthorizationRow → Result MailboxAuthorization
of_row r = do
  accepted ← scope_set r.scopes r.key.platform
  ok (record {
    id = r.id;
    tenant_id = r.key.tenant_id;
    user_id = r.key.user_id;
    mailbox_id = r.key.mailbox_id;
    platform = r.key.platform;
    scope_set = accepted;
    credential_handle = r.credential_handle;
    consent_granted_at = r.consent_granted_at;
    status = r.status;
    domain_events = [];
  })

unfoldable pub of_rows : List AuthorizationRow → Result (List MailboxAuthorization)
unfolding of_row
of_rows [] = ok []
of_rows (r ∷ rs) = do a ← of_row r; as' ← of_rows rs; ok (a ∷ as')

-- What an OAuth provider answers to `revoke` and `refreshToken`: `false` is a throw.
pub record OAuthProvider : Type 0 where
  pub revokes : String → Bool
  pub refreshes : String → Bool

abbrev pub pick : Platform → OAuthProvider → OAuthProvider → OAuthProvider
pick gmail g m = g
pick outlook g m = m

module _ (store : AuthorizationDb) where
  open store use {Db, upsert, create_grant, find_first, find_active, revoke_active}

  pub record Outcome : Type 0 where
    pub db : Db
    pub emitted : List DomainEvent
    pub revoked_credentials : List String

  abbrev pub key_of : String → MailboxAuthorization → AuthorizationKey
  key_of tenant a = record {
    tenant_id = tenant;
    user_id = a.user_id;
    mailbox_id = a.mailbox_id;
    platform = a.platform;
  }

  -- `create` of the upsert, whose status is always active.
  abbrev pub row_of : String → MailboxAuthorization → NewAuthorization
  row_of tenant a = record {
    key = key_of tenant a;
    scopes = a.scope_set.scopes;
    credential_handle = a.credential_handle;
    consent_granted_at = a.consent_granted_at;
    status = active;
  }

  -- `if (consentGrant) …`
  abbrev pub store_grant : AuthorizationKey → ℕ → Db → Option (List String) → Option Db
  store_grant k now d none = some d
  store_grant k now d (some scopes) = create_grant k scopes now d

  -- The row is created as active, or its status is updated; the consent is stored; and the events of
  -- the aggregate are cleared, so the aggregate is returned too.
  unfoldable pub save : String → MailboxAuthorization → ℕ → Db → Result (MailboxAuthorization × Db)
  save tenant a now d = do
    d₁ ← or_throw (upsert (row_of tenant a) a.status now d)
    d₂ ← or_throw (store_grant (key_of tenant a) now d₁ (consent_grant a.domain_events))
    ok (clear_domain_events a, d₂)

  unfoldable pub grant_consent :
      String → String → String → Platform → List String → String → ℕ → Db → Result Outcome
  grant_consent tenant user mailbox platform scopes handle now d = do
    a ← create tenant user mailbox platform scopes handle now
    (saved, d') ← save tenant a now d
    ok (record { db = d'; emitted = saved.domain_events; revoked_credentials = [] })

  -- `findByTenantIdAndMailboxId`, where null makes the service throw.
  unfoldable pub find_or_throw : Option AuthorizationRow → Result MailboxAuthorization
  find_or_throw none = throws "Authorization not found"
  find_or_throw (some r) = of_row r

  abbrev pub call_provider : Bool → Result (Unit {0})
  call_provider true = ok tt
  call_provider false = throws "provider"

  unfoldable pub refresh_token :
      OAuthProvider → OAuthProvider → String → String → Db → Result (Unit {0})
  refresh_token g m tenant mailbox d = do
    a ← find_or_throw (find_first tenant mailbox d)
    call_provider ((pick a.platform g m).refreshes a.credential_handle)

  unfoldable pub revoke_one :
      OAuthProvider → OAuthProvider → String → String → RevocationReason → ℕ → Db → Result Outcome
  revoke_one g m tenant mailbox reason now d = do
    a ← find_or_throw (find_first tenant mailbox d)
    b ← revoke a reason
    done ← call_provider ((pick a.platform g m).revokes a.credential_handle)
    (saved, d') ← save tenant b now d
    ok (record {
      db = d';
      emitted = saved.domain_events;
      revoked_credentials = a.credential_handle ∷ [];
    })

  -- The loop: a provider that throws is logged, and the loop goes on.
  unfoldable pub revoke_each :
      OAuthProvider → OAuthProvider → List MailboxAuthorization → List String
  revoke_each g m [] = []
  revoke_each g m (a ∷ as') =
      let rest = revoke_each g m as' in
      if (pick a.platform g m).revokes a.credential_handle then a.credential_handle ∷ rest else rest

  unfoldable pub revoke_all_for_tenant :
      OAuthProvider → OAuthProvider → String → ℕ → Db → Result Outcome
  revoke_all_for_tenant g m tenant now d = do
    authorizations ← of_rows (find_active tenant d)
    d' ← or_throw (revoke_active tenant now d)
    ok (record { db = d'; emitted = []; revoked_credentials = revoke_each g m authorizations })
