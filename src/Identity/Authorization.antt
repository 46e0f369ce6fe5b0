-- ===== src/Identity/Authorization.antt =====
-- src/identity-access/domain/aggregates/mailbox-authorization.ts and its two events.
use Prim.Native.String.{◌++◌}
use volunteer_training.Prelude.{ℕ, Bool, true, false, not, List, [], ◌∷◌, String, if◌then◌else◌}
use mathlib.Core.List
use volunteer_training.Prelude.Result.{Result, ok, throws, ◌>>=◌}
use volunteer_training.Prelude.Text.{decimal}
use volunteer_training.Identity.ScopeSet.{Platform, ScopeSet, scope_set}

pub data Status : Type 0 where
  active revoked expired : Status

pub data RevocationReason : Type 0 where
  user_initiated admin_revoked tenant_suspended : RevocationReason

pub data DomainEvent : Type 0 where
  mailbox_authorized : String → String → String → Platform → List String → DomainEvent
  mailbox_credential_revoked : String → String → Platform → RevocationReason → DomainEvent

pub record MailboxAuthorization : Type 0 where
  pub id : String
  pub tenant_id : String
  pub user_id : String
  pub mailbox_id : String
  pub platform : Platform
  pub scope_set : ScopeSet
  pub credential_handle : String
  pub consent_granted_at : ℕ
  pub status : Status
  pub domain_events : List DomainEvent

unfoldable pub create :
    String → String → String → Platform → List String → String → ℕ → Result MailboxAuthorization
create tenant user mailbox platform scopes handle now = do
  accepted ← scope_set scopes platform
  ok (record {
    id = "auth_" ++ decimal now;
    tenant_id = tenant;
    user_id = user;
    mailbox_id = mailbox;
    platform = platform;
    scope_set = accepted;
    credential_handle = handle;
    consent_granted_at = now;
    status = active;
    domain_events = mailbox_authorized tenant user mailbox platform scopes ∷ [];
  })

abbrev pub is_active : Status → Bool
is_active active = true
is_active _ = false

unfoldable pub revoke : MailboxAuthorization → RevocationReason → Result MailboxAuthorization
revoke a reason =
    if not (is_active a.status)
    then throws "Cannot revoke non-active authorization"
    else ok (record a {
      status = revoked;
      domain_events =
          List.◌++◌ a.domain_events
            (mailbox_credential_revoked a.tenant_id a.mailbox_id a.platform reason ∷ []);
    })

unfoldable pub clear_domain_events : MailboxAuthorization → MailboxAuthorization
clear_domain_events a = record a { domain_events = [] }
