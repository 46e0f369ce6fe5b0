-- ===== src/Identity/Cascade.antt =====
-- What the revocation of a whole tenant has done.
use volunteer_training.Prelude.{List, [], ◌∷◌, String, if◌then◌else◌}
use volunteer_training.Prelude.Result.{Result, ok, throws}
use volunteer_training.Identity.Authorization.{MailboxAuthorization}
use volunteer_training.Identity.Service.{
  AuthorizationRow, AuthorizationDb, OAuthProvider, pick, revoke_each,
}

module _ (store : AuthorizationDb) where
  open store use {Db, upsert, create_grant, find_first, find_active, revoke_active}

  -- The credentials of those rows whose provider accepts the revocation, in order.
  abbrev pub accepted_handles : OAuthProvider → OAuthProvider → List AuthorizationRow → List String
  accepted_handles g m [] = []
  accepted_handles g m (r ∷ rs) =
      let rest = accepted_handles g m rs in
      if (pick r.key.platform g m).revokes r.credential_handle
      then r.credential_handle ∷ rest
      else rest

  abbrev handles_of :
      OAuthProvider → OAuthProvider → Result (List MailboxAuthorization) → List String
  handles_of g m (throws message) = []
  handles_of g m (ok as') = revoke_each store g m as'
