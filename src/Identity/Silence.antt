-- ===== src/Identity/Silence.antt =====
-- Which events of an authorization are emitted.
use volunteer_training.Prelude.{ℕ, ◌≡◌, refl, sym, ap, ◌∙◌, Option, none, some, List, [], String}
use volunteer_training.Prelude.Result.{Result, ok, throws, ◌>>=◌, >>=-ok}
use volunteer_training.Identity.ScopeSet.{Platform}
use volunteer_training.Identity.Authorization.{
  DomainEvent, MailboxAuthorization, create, clear_domain_events,
}
use volunteer_training.Identity.Service.{
  AuthorizationDb, or_throw, Outcome, key_of, row_of, store_grant, save, consent_grant,
  grant_consent,
}

module _ (store : AuthorizationDb) where
  open store use {Db, upsert, create_grant, find_first, find_active, revoke_active}

  abbrev pub emitted_by : Result (Outcome store) → List DomainEvent
  emitted_by (throws message) = []
  emitted_by (ok o) = o.emitted

  abbrev pub revoked_by : Result (Outcome store) → List String
  revoked_by (throws message) = []
  revoked_by (ok o) = o.revoked_credentials

  abbrev pub db_after : Db → Result (Outcome store) → Db
  db_after d (throws message) = d
  db_after d (ok o) = o.db

  abbrev pub events_of : Result (MailboxAuthorization × Db) → List DomainEvent
  events_of (throws message) = []
  events_of (ok p) = p.0.domain_events

  silent_chain {ℓ} :
      {A : Type ℓ} (m : Result A) (k : A → Result (MailboxAuthorization × Db))
      → ((a : A) → events_of (k a) ≡ [])
      → events_of (m >>= k) ≡ []
  silent_chain (throws message) k h = refl
  silent_chain (ok a) k h = h a

  pub save_silent :
      (tenant : String) (a : MailboxAuthorization) (now : ℕ) (d : Db)
      → events_of (save store tenant a now d) ≡ []
  unfolding save clear_domain_events
  save_silent tenant a now d =
      silent_chain (or_throw (upsert (row_of store tenant a) a.status now d)) _ (λ d₁.
        silent_chain
          (or_throw
            (store_grant store (key_of store tenant a) now d₁ (consent_grant a.domain_events)))
          _ (λ d₂. refl))

  -- A granted consent emits no event: the repository clears the events of the aggregate before the
  -- service reads them.
  pub grant_consent_silent :
      (tenant user mailbox : String) (platform : Platform) (scopes : List String) (handle : String)
      (now : ℕ) (d : Db) {o : Outcome store}
      → grant_consent store tenant user mailbox platform scopes handle now d ≡ ok o
      → o.emitted ≡ []
  unfolding grant_consent
  grant_consent_silent tenant user mailbox platform scopes handle now d h =
      let (a, (_, h₁)) = >>=-ok (create tenant user mailbox platform scopes handle now) _ h in
      let ((saved, d'), (kept, h₂)) = >>=-ok (save store tenant a now d) _ h₁ in
      sym (ap emitted_by h₂) ∙ (sym (ap events_of kept) ∙ save_silent tenant a now d)

  pub returned : (x : Option Db) {d' : Db} → or_throw x ≡ ok d' → x ≡ some d'
  returned none h = cc
  returned (some d₁) h = cc
