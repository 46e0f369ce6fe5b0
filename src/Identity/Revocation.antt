-- ===== src/Identity/Revocation.antt =====
-- When the revocation of one authorization has happened.
use volunteer_training.Prelude.{
  ℕ, ◌≡◌, ◌↔◌, refl, sym, ap, ◌∙◌, Bool, true, false, not, Option, none, some, List, [], ◌∷◌,
  String, if◌then◌else◌,
}
use mathlib.Core.List
use volunteer_training.Prelude.Result.{Result, ok, throws, ◌>>=◌, >>=-ok}
use volunteer_training.Identity.ScopeSet.{ScopeSet, scope_set}
use volunteer_training.Identity.Authorization.{
  Status, active, revoked, expired, is_active, RevocationReason, DomainEvent, MailboxAuthorization,
  mailbox_credential_revoked, revoke, clear_domain_events,
}
use volunteer_training.Identity.Service.{
  AuthorizationRow, AuthorizationDb, or_throw, of_row, OAuthProvider, pick, Outcome, key_of, row_of,
  store_grant, save, consent_grant, find_or_throw, call_provider, call_provider, revoke_one,
}
use volunteer_training.Identity.Silence.{emitted_by, revoked_by, db_after, events_of, save_silent}

module _ (store : AuthorizationDb) where
  open store use {Db, upsert, create_grant, find_first, find_active, revoke_active}

  -- What the end of a revocation returns, once the row is found, the revocation accepted by the
  -- aggregate and the provider called.
  abbrev finish : String → ℕ → Db → MailboxAuthorization → Result (Outcome store)
  finish tenant now d b = do
    (saved, d') ← save store tenant b now d
    ok (record {
      db = d';
      emitted = saved.domain_events;
      revoked_credentials = b.credential_handle ∷ [];
    })

  finish_silent :
      (tenant : String) (now : ℕ) (d : Db) (b : MailboxAuthorization) {o : Outcome store}
      → finish tenant now d b ≡ ok o
      → o.emitted ≡ []
  finish_silent tenant now d b h =
      let ((saved, d'), (kept, h₁)) = >>=-ok (save store tenant b now d) _ h in
      sym (ap (emitted_by store) h₁)
      ∙ (sym (ap (events_of store) kept) ∙ save_silent store tenant b now d)

  abbrev revoked_form : MailboxAuthorization → RevocationReason → MailboxAuthorization
  revoked_form a reason = record a {
    status = revoked;
    domain_events =
        List.◌++◌ a.domain_events
          (mailbox_credential_revoked a.tenant_id a.mailbox_id a.platform reason ∷ []);
  }

  only_active {ℓ κ} :
      {A : Type ℓ} {B : Type κ} (message : String) (s : Status) (b : A) (k : A → Result B) {o : B}
      → ((if not (is_active s) then throws message else ok b) >>= k) ≡ ok o
      → (s ≡ active) × (k b ≡ ok o)
  only_active message active b k h = (refl, h)
  only_active message revoked b k h = cc
  only_active message expired b k h = cc

  only_accepted {ℓ} :
      {B : Type ℓ} (accepted : Bool) (r : Result B) {o : B}
      → (call_provider store accepted >>= (λ done. r)) ≡ ok o
      → (accepted ≡ true) × (r ≡ ok o)
  only_accepted true r h = (refl, h)
  only_accepted false r h = cc

  -- A revocation from the aggregate on.
  abbrev revoke_found :
      OAuthProvider
      → OAuthProvider
      → String
      → RevocationReason
      → ℕ
      → Db
      → MailboxAuthorization
      → Result (Outcome store)
  revoke_found g m tenant reason now d a = do
    b ← revoke a reason
    done ← call_provider store ((pick a.platform g m).revokes a.credential_handle)
    (saved, d') ← save store tenant b now d
    ok (record {
      db = d';
      emitted = saved.domain_events;
      revoked_credentials = a.credential_handle ∷ [];
    })

  revoke_found_steps :
      (g m : OAuthProvider) (tenant : String) (reason : RevocationReason) (now : ℕ) (d : Db)
      {o : Outcome store} (a : MailboxAuthorization)
      → revoke_found g m tenant reason now d a ≡ ok o
      → (a.status ≡ active)
        × (((pick a.platform g m).revokes a.credential_handle ≡ true)
            × (finish tenant now d (revoked_form a reason) ≡ ok o))
  unfolding revoke
  revoke_found_steps g m tenant reason now d a h =
      let (current, h₁) = only_active _ a.status (revoked_form a reason) _ h in
      (current, only_accepted _ _ h₁)

  revoke_one_found :
      (g m : OAuthProvider) (tenant mailbox : String) (reason : RevocationReason) (now : ℕ) (d : Db)
      (a : MailboxAuthorization)
      → find_or_throw store (find_first tenant mailbox d) ≡ ok a
      → revoke_one store g m tenant mailbox reason now d ≡ revoke_found g m tenant reason now d a
  unfolding revoke_one
  revoke_one_found g m tenant mailbox reason now d a found =
      ap (λ x. x >>= revoke_found g m tenant reason now d) found

  abbrev saved_db : Result (MailboxAuthorization × Db) → Option Db
  saved_db (throws message) = none
  saved_db (ok p) = some p.1

  saved_without_grant :
      (x : Option Db) (c : MailboxAuthorization) {p : MailboxAuthorization × Db}
      → (or_throw x >>= (λ d₁. or_throw (some d₁) >>= (λ d₂. ok (c, d₂)))) ≡ ok p
      → x ≡ some p.1
  saved_without_grant none c h = cc
  saved_without_grant (some d₁) c h = ap saved_db h

  finish_stored :
      (tenant : String) (now : ℕ) (d : Db) (b : MailboxAuthorization) {o : Outcome store}
      → consent_grant b.domain_events ≡ none
      → finish tenant now d b ≡ ok o
      → (upsert (row_of store tenant b) b.status now d ≡ some o.db)
        × (o.revoked_credentials ≡ b.credential_handle ∷ [])
  unfolding save
  finish_stored tenant now d b none_granted h =
      let ((saved, d'), (kept, h₁)) = >>=-ok (save store tenant b now d) _ h in
      let none_made =
        ap
          (λ x. or_throw (upsert (row_of store tenant b) b.status now d) >>= (λ d₁.
            or_throw (store_grant store (key_of store tenant b) now d₁ x)
            >>= (λ d₂. ok (clear_domain_events b, d₂))))
          none_granted in
      let stored =
        saved_without_grant (upsert (row_of store tenant b) b.status now d) (clear_domain_events b)
          (sym none_made ∙ kept) in
      (stored ∙ ap some (ap (db_after store d) h₁), sym (ap (revoked_by store) h₁))

  abbrev pub loaded : AuthorizationRow → ScopeSet → MailboxAuthorization
  loaded r accepted = record {
    id = r.id;
    tenant_id = r.key.tenant_id;
    user_id = r.key.user_id;
    mailbox_id = r.key.mailbox_id;
    platform = r.key.platform;
    scope_set = accepted;
    credential_handle = r.credential_handle;
    consent_granted_at = r.consent_granted_at;
    status = r.status;
    domain_events = [];
  }

  found_row :
      (r : AuthorizationRow) (accepted : ScopeSet) (x : Option AuthorizationRow)
      → x ≡ some r
      → scope_set r.scopes r.key.platform ≡ ok accepted
      → find_or_throw store x ≡ ok (loaded r accepted)
  unfolding find_or_throw of_row
  found_row r accepted x found valid = rw found (ap (λ x. x >>= (λ s. ok (loaded r s))) valid)

  -- The row was active, its provider revokes its credential, and the outcome has the table after the
  -- update to revoked, this credential alone, and no event.
  abbrev pub IsRevoked :
      OAuthProvider
      → OAuthProvider
      → String
      → ℕ
      → Db
      → AuthorizationRow
      → ScopeSet
      → Outcome store
      → Type 0
  IsRevoked g m tenant now d r accepted o =
      ((r.status ≡ active) × ((pick r.key.platform g m).revokes r.credential_handle ≡ true))
      × ((upsert (row_of store tenant (loaded r accepted)) revoked now d ≡ some o.db)
          × ((o.revoked_credentials ≡ r.credential_handle ∷ []) × (o.emitted ≡ [])))

  abbrev finished : String → MailboxAuthorization × Db → Result (Outcome store)
  finished handle (saved, d') =
      ok (record { db = d'; emitted = saved.domain_events; revoked_credentials = handle ∷ [] })

  revoke_one_done :
      (g m : OAuthProvider) (tenant mailbox : String) (reason : RevocationReason) (now : ℕ) (d : Db)
      (r : AuthorizationRow) (accepted : ScopeSet) {o : Outcome store}
      → find_first tenant mailbox d ≡ some r
      → scope_set r.scopes r.key.platform ≡ ok accepted
      → revoke_one store g m tenant mailbox reason now d ≡ ok o
      → IsRevoked g m tenant now d r accepted o
  revoke_one_done g m tenant mailbox reason now d r accepted found valid h =
      let a = loaded r accepted in
      let h₁ =
        sym
          (revoke_one_found g m tenant mailbox reason now d a (found_row r accepted _ found valid))
        ∙ h in
      let (current, (called, h₂)) = revoke_found_steps g m tenant reason now d a h₁ in
      let (stored, credentials) = finish_stored tenant now d (revoked_form a reason) refl h₂ in
      (
        (current, called),
        (stored, (credentials, finish_silent tenant now d (revoked_form a reason) h₂)),
      )

  active_goes_on {ℓ κ} :
      {A : Type ℓ} {B : Type κ} (message : String) (s : Status) (b : A) (k : A → Result B)
      → s ≡ active
      → ((if not (is_active s) then throws message else ok b) >>= k) ≡ k b
  active_goes_on message s b k h =
      ap (λ x. (if not (is_active x) then throws message else ok b) >>= k) h

  revoke_found_active :
      (g m : OAuthProvider) (tenant : String) (reason : RevocationReason) (now : ℕ) (d : Db)
      (a : MailboxAuthorization)
      → a.status ≡ active
      → (pick a.platform g m).revokes a.credential_handle ≡ true
      → revoke_found g m tenant reason now d a ≡ finish tenant now d (revoked_form a reason)
  unfolding revoke
  revoke_found_active g m tenant reason now d a current called =
      active_goes_on _ a.status (revoked_form a reason) _ current
      ∙ ap (λ x. call_provider store x >>= (λ done. finish tenant now d (revoked_form a reason)))
          called

  saved_form :
      (tenant : String) (now : ℕ) (d d' : Db) (r : AuthorizationRow) (accepted : ScopeSet)
      (reason : RevocationReason)
      → let b = revoked_form (loaded r accepted) reason in
        upsert (row_of store tenant b) b.status now d ≡ some d'
        → save store tenant b now d ≡ ok (clear_domain_events b, d')
  unfolding save
  saved_form tenant now d d' r accepted reason stored =
      ap
        (λ x.
          or_throw x
          >>= (λ d₁. ok (clear_domain_events (revoked_form (loaded r accepted) reason), d₁)))
        stored

  outcome_of :
      (handle : String) (o : Outcome store)
      → o.revoked_credentials ≡ handle ∷ []
      → o.emitted ≡ []
      → ok (record { db = o.db; emitted = []; revoked_credentials = handle ∷ [] }) ≡ ok o
  outcome_of handle o credentials silent =
      ap (outcome (handle ∷ [])) (sym silent) ∙ ap (λ c. outcome c o.emitted) (sym credentials)
    where
      outcome : List String → List DomainEvent → Result (Outcome store)
      outcome credentials emitted =
          ok (record { db = o.db; emitted = emitted; revoked_credentials = credentials })

  -- The revocation of a stored row, whose scopes the aggregate accepts, returns an outcome exactly
  -- when the row is active, the provider of its platform revokes its credential and the update of
  -- the row to revoked gives the outcome's table; and the outcome has the revoked credential and no
  -- emitted event.
  pub revoke_one_iff :
      (g m : OAuthProvider) (tenant mailbox : String) (reason : RevocationReason) (now : ℕ) (d : Db)
      (r : AuthorizationRow) (accepted : ScopeSet) (o : Outcome store)
      → find_first tenant mailbox d ≡ some r
      → scope_set r.scopes r.key.platform ≡ ok accepted
      → (revoke_one store g m tenant mailbox reason now d ≡ ok o)
        ↔ IsRevoked g m tenant now d r accepted o
  unfolding clear_domain_events
  revoke_one_iff g m tenant mailbox reason now d r accepted o found valid = (
    λ h. revoke_one_done g m tenant mailbox reason now d r accepted found valid h,
    λ ((current, called), (stored, (credentials, silent))).
        revoke_one_found g m tenant mailbox reason now d (loaded r accepted)
          (found_row r accepted _ found valid)
        ∙ revoke_found_active g m tenant reason now d (loaded r accepted) current called
        ∙ ap (λ x. x >>= finished r.credential_handle)
            (saved_form tenant now d o.db r accepted reason stored)
        ∙ outcome_of r.credential_handle o credentials silent,
  )
