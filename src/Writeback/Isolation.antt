-- ===== src/Writeback/Isolation.antt =====
-- What the service guarantees of the stored rows.
use volunteer_training.Prelude.{
  ℕ, ◌≡◌, ◌≢◌, refl, sym, ap, ◌∙◌, Bool, true, false, Option, none, some, arith,
}
use mathlib.Core.Path.{subst}
use volunteer_training.Prelude.Json.{Json}
use volunteer_training.Prelude.Attempt.{>>=-eq-some}
use volunteer_training.Prelude.Store.{Store}
use volunteer_training.Writeback.Facet.{FacetType, Platform}
use volunteer_training.Writeback.State.{
  FacetMap, MessageWritebackState, create, from_db, to_db, apply_facet, record_facet_failure,
}
use volunteer_training.Writeback.Service.{
  MessageKey, message_key_eq, same_key, same_key_iff, ApplyFacetResult, WritePort,
  find_by_message_id, save, find_or_create_by_message_id, settle, pick, of_row, or_create,
  service_apply_facet,
}

-- The state that a call starts from: the stored one, or a new one.
abbrev pub loaded : MessageKey → Option FacetMap → MessageWritebackState
loaded k none = create k.tenant_id k.mailbox_id k.message_id
loaded k (some facets) = from_db k.tenant_id k.mailbox_id k.message_id facets

some_pair {ℓ κ} :
    {A : Type ℓ} {B : Type κ} {a c : A} {b d : B}
    → ◌≡◌ {A = Option (A × B)} (some (a, b)) (some (c, d))
    → (a ≡ c) × (b ≡ d)
some_pair h = (cc h, cc h)

settle_keys :
    (result : ApplyFacetResult) (k : MessageKey) (o : Option FacetMap) (t : FacetType) (v : Json)
    (platform : Platform) (now : ℕ)
    → let s = settle result (loaded k o) t v platform now in
      (s.mailbox_id ≡ k.mailbox_id) × (s.message_id ≡ k.message_id)
unfolding settle apply_facet record_facet_failure from_db create
settle_keys result k o t v platform now = ground arith

module _ (db : Store MessageKey FacetMap) where
  open db use {Db, find, write, find_written}

  -- A write under one key, seen at that key and at every other.
  written_at :
      (k : MessageKey) (r : FacetMap) (d d' : Db)
      → write k r d ≡ some d'
      → (find k d' ≡ some r) × ((j : MessageKey) → same_key k j ≡ false → find j d' ≡ find j d)
  written_at k r d d' w = (
    find_written k k r d d' w ∙ rw ((same_key_iff k k).1 refl),
    λ j n. find_written k j r d d' w ∙ rw n,
  )

  saved_at :
      (s : MessageWritebackState) (k : MessageKey) (d d' : Db)
      → s.mailbox_id ≡ k.mailbox_id
      → s.message_id ≡ k.message_id
      → save db s k.tenant_id d ≡ some d'
      → (find k d' ≡ some (to_db s))
        × ((j : MessageKey) → same_key k j ≡ false → find j d' ≡ find j d)
  unfolding save
  saved_at s k d d' p q h =
      let own : record {
        tenant_id = k.tenant_id;
        mailbox_id = s.mailbox_id;
        message_id = s.message_id;
      }
          ≡ k =
        λ i. record { tenant_id = k.tenant_id; mailbox_id = p i; message_id = q i } in
      written_at k (to_db s) d d' (subst (λ c. write c (to_db s) d ≡ some d') own h)

  or_create_lem :
      (k : MessageKey) (d d' : Db) (s : MessageWritebackState) (o : Option FacetMap)
      → or_create db k d (of_row k o) ≡ some (s, d')
      → (s ≡ loaded k o) × ((j : MessageKey) → same_key k j ≡ false → find j d' ≡ find j d)
  unfolding or_create create
  or_create_lem k d d' s (some facets) h =
      let e = some_pair h in (sym e.0, λ j n. ap (find j) (sym e.1))
  or_create_lem k d d' s none h =
      let (d₁, w, e) = >>=-eq-some (save db (loaded k none) k.tenant_id d) _ h in
      let e' = some_pair e in
      let (_, others) = saved_at (loaded k none) k d d₁ refl refl w in
      (sym e'.0, λ j n. ap (find j) (sym e'.1) ∙ others j n)

  -- What a call that does not throw has stored, at its own key and elsewhere.
  service_lem :
      (g o : WritePort) (k : MessageKey) (t : FacetType) (v : Json) (platform : Platform) (now : ℕ)
      (d d' : Db)
      → service_apply_facet db g o k t v platform now d ≡ some d'
      → let result = pick platform g o k.mailbox_id k.message_id t v in
        (find k d' ≡ some (to_db (settle result (loaded k (find k d)) t v platform now)))
        × ((j : MessageKey) → same_key k j ≡ false → find j d' ≡ find j d)
  unfolding service_apply_facet find_or_create_by_message_id find_by_message_id
  service_lem g o k t v platform now d d' h =
      let ((s, d₁), created, saved) = >>=-eq-some (find_or_create_by_message_id db k d) _ h in
      let (fresh, others) = or_create_lem k d d₁ s (find k d) created in
      let (mailbox, message) = settle_keys result k (find k d) t v platform now in
      let (row, rest) =
        saved_at _ k d₁ d' (ap (λ r. (settle result r t v platform now).mailbox_id) fresh ∙ mailbox)
          (ap (λ r. (settle result r t v platform now).message_id) fresh ∙ message) saved in
      (
        row ∙ ap (λ r. some (to_db (settle result r t v platform now))) fresh,
        λ j n. rest j n ∙ others j n,
      )
    where
      result : ApplyFacetResult
      result = pick platform g o k.mailbox_id k.message_id t v

  -- A call of the service that does not throw stores, under its own key, what the adapter's answer
  -- makes of the state stored there before, or of a new state if there was none.
  pub service_apply_facet-find :
      (g o : WritePort) (k : MessageKey) (t : FacetType) (v : Json) (platform : Platform) (now : ℕ)
      (d d' : Db)
      → service_apply_facet db g o k t v platform now d ≡ some d'
      → find k d'
        ≡ some (
            to_db (
              settle
                (pick platform g o k.mailbox_id k.message_id t v)
                (loaded k (find k d))
                t
                v
                platform
                now))
  service_apply_facet-find g o k t v platform now d d' h =
      (service_lem g o k t v platform now d d' h).0

  -- A call of the service that does not throw leaves the row of every other tenant, mailbox or
  -- message as it was.
  pub service_apply_facet-find_other :
      (g o : WritePort) (k j : MessageKey) (t : FacetType) (v : Json) (platform : Platform)
      (now : ℕ) (d d' : Db)
      → k ≢ j
      → service_apply_facet db g o k t v platform now d ≡ some d'
      → find j d' ≡ find j d
  service_apply_facet-find_other g o k j t v platform now d d' n h =
      (service_lem g o k t v platform now d d' h).1 j (differs (same_key k j) refl)
    where
      differs : (b : Bool) → same_key k j ≡ b → same_key k j ≡ false
      differs true e = absurd (n ((same_key_iff k j).0 e))
      differs false e = e
