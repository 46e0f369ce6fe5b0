-- ===== src/Identity/Tests.antt =====
-- The examples: a table of one row, and two providers.
use volunteer_training.Prelude.{
  contains, ◌≡◌, ◌↔◌, refl, true, false, Option, none, some, List, [], ◌∷◌, String,
}
use volunteer_training.Prelude.Result.{ok}
use volunteer_training.Identity.ScopeSet.{
  outlook, ScopeSet, scope_set, minimal, equals, check_required, check_allowed, first_outside,
}
use volunteer_training.Identity.Authorization.{
  Status, active, revoked, user_initiated, create, revoke, clear_domain_events,
}
use volunteer_training.Identity.Service.{
  AuthorizationRow, NewAuthorization, AuthorizationDb, OAuthProvider, Outcome, grant_consent, save,
  find_or_throw, of_row, revoke_one,
}
use volunteer_training.Prelude.Text.{decimal}
use volunteer_training.Identity.Scopes.{scope_set_iff}
use volunteer_training.Identity.Revocation.{IsRevoked, revoke_one_iff}

abbrev mail_scopes : List String
mail_scopes = "MailboxSettings.ReadWrite" ∷ "Mail.ReadWrite" ∷ "Mail.ReadWrite" ∷ []

abbrev alice : AuthorizationRow
alice = record {
  id = "auth_7";
  key = record { tenant_id = "t"; user_id = "alice"; mailbox_id = "inbox"; platform = outlook };
  scopes = mail_scopes;
  credential_handle = "vault:1";
  consent_granted_at = 7;
  status = active;
}

-- A table that holds at most one row.
abbrev active_rows : Option AuthorizationRow → List AuthorizationRow
active_rows none = []
active_rows (some r) = active_only r.status r
  where
    active_only : Status → AuthorizationRow → List AuthorizationRow
    active_only active r = r ∷ []
    active_only _ r = []

abbrev with_row_status : Status → Option AuthorizationRow → Option AuthorizationRow
with_row_status s none = none
with_row_status s (some r) = some (record r { status = s })

abbrev stored_as : String → NewAuthorization → AuthorizationRow
stored_as id r = record {
  id = id;
  key = r.key;
  scopes = r.scopes;
  credential_handle = r.credential_handle;
  consent_granted_at = r.consent_granted_at;
  status = r.status;
}

abbrev put : NewAuthorization → Status → Option AuthorizationRow → Option AuthorizationRow
put r s none = some (stored_as "row_1" r)
put r s (some old) = some (record old { status = s })

abbrev one_row : AuthorizationDb
one_row = record {
  Db = Option AuthorizationRow;
  upsert = λ r s now d. some (put r s d);
  create_grant = λ k scopes now d. some d;
  find_first = λ tenant mailbox d. d;
  find_active = λ tenant d. active_rows d;
  revoke_active = λ tenant now d. some (with_row_status revoked d);
}

abbrev willing : OAuthProvider
willing = record { revokes = λ handle. true; refreshes = λ handle. true }

abbrev failing : OAuthProvider
failing = record { revokes = λ handle. false; refreshes = λ handle. false }

scope_set_iff_example :
    (scope_set mail_scopes outlook ≡ ok (record { scopes = mail_scopes; platform = outlook }))
    ↔ (equals (record { scopes = mail_scopes; platform = outlook }) (minimal outlook) ≡ true)
scope_set_iff_example = scope_set_iff mail_scopes outlook

abbrev granted : Outcome one_row
granted = record {
  db = some (record alice {
    id = "row_1";
    scopes = mail_scopes;
    consent_granted_at = 9;
    credential_handle = "vault:1";
  });
  emitted = [];
  revoked_credentials = [];
}

granted_lem :
    grant_consent one_row "t" "alice" "inbox" outlook mail_scopes "vault:1" 9 none ≡ ok granted
unfolding grant_consent create scope_set check_required check_allowed first_outside contains save
    decimal clear_domain_events
granted_lem = refl

abbrev ended : Outcome one_row
ended = record {
  db = some (record alice { status = revoked });
  emitted = [];
  revoked_credentials = "vault:1" ∷ [];
}

abbrev accepted_scopes : ScopeSet
accepted_scopes = record { scopes = mail_scopes; platform = outlook }

accepted_lem : scope_set mail_scopes outlook ≡ ok accepted_scopes
unfolding scope_set check_required check_allowed first_outside contains
accepted_lem = refl

ended_lem : revoke_one one_row failing willing "t" "inbox" user_initiated 9 (some alice) ≡ ok ended
unfolding revoke_one find_or_throw of_row scope_set check_required check_allowed first_outside
    contains revoke save clear_domain_events
ended_lem = refl

revoke_one_iff_example :
    (revoke_one one_row failing willing "t" "inbox" user_initiated 9 (some alice) ≡ ok ended)
    ↔ IsRevoked one_row failing willing "t" 9 (some alice) alice accepted_scopes ended
revoke_one_iff_example =
    revoke_one_iff one_row failing willing "t" "inbox" user_initiated 9 (some alice) alice
      accepted_scopes ended refl accepted_lem
