-- ===== src/Ingestion/Once.antt =====
-- A message is stored and published once, however often it is delivered.
use volunteer_training.Prelude.{
  ◌≡◌, ◌⊎◌, inl, inr, refl, sym, ap, ◌∙◌, Bool-cases, Option-cases, true, Option, none, some, List,
  [], ◌∷◌, ◌++◌, String, ◌===◌, if◌then◌else◌,
}
use mathlib.Core.Path.{subst}
use volunteer_training.Ingestion.Database.{
  OutboxEventInput, Tables, settle, run_in_tenant_transaction, create_all, rows_of, create_all_lem,
}
use volunteer_training.Ingestion.Messages.{
  IngestedKey, ingested_key_eq, IngestedMessageData, IngestedMessage, ingested_row, same_message,
  save_new, save,
}

module _ (tables : Tables IngestedKey IngestedMessage) where
  open tables use {Db, find, events, set_tenant, write, find_written, events_written}

  abbrev pub IsStored : IngestedMessageData → List OutboxEventInput → String → Db → Db → Type 0
  IsStored m new made d d' =
      ((k : IngestedKey)
        → find k d' ≡ (if m.key === k then some (ingested_row m made) else find k d))
      × (events d' ≡ events d ++ rows_of tables m.key.tenant_id new)

  -- What a save comes to: it throws, the message was there, or it is stored with its events.
  abbrev pub Outcome : IngestedMessageData → List OutboxEventInput → String → Db → Type 0
  Outcome m new made d =
      (save tables m new made d ≡ (none, d))
      ⊎ (((old : IngestedMessage) × (find m.key d ≡ some old)
            × (save tables m new made d ≡ (some old, d)))
          ⊎ ((d' : Db) × (find m.key d ≡ none)
              × (save tables m new made d ≡ (some (ingested_row m made), d'))
              × IsStored m new made d d'))

  stored :
      (m : IngestedMessageData) (new : List OutboxEventInput) (made : String) (d d1 d2 : Db)
      → write m.key (ingested_row m made) d ≡ some d1
      → create_all tables m.key.tenant_id new d1 ≡ some d2
      → IsStored m new made d d2
  stored m new made d d1 d2 wrote created =
      let (found, there) = create_all_lem tables m.key.tenant_id new d1 d2 created in
      let row = ingested_row m made in
      (
        (λ k. found k ∙ find_written m.key k row d d1 wrote),
        there
            ∙ ap (λ l. l ++ rows_of tables m.key.tenant_id new)
                (events_written m.key row d d1 wrote),
      )

  Attempt :
      IngestedMessageData
      → List OutboxEventInput
      → String
      → Option IngestedMessage
      → Db
      → Option (IngestedMessage × Db)
      → Type 0
  Attempt m new made (some old) d o = o ≡ some (old, d)
  Attempt m new made none d o =
      (o ≡ none) ⊎ ((d' : Db) × (o ≡ some (ingested_row m made, d')) × IsStored m new made d d')

  save_new_lem :
      (m : IngestedMessageData) (new : List OutboxEventInput) (made : String)
      (o : Option IngestedMessage) (d : Db)
      → Attempt m new made o d (save_new tables m new made o d)
  unfolding Attempt save_new
  save_new_lem m new made (some old) d = refl
  save_new_lem m new made none d = elim (Option-cases (write m.key (ingested_row m made) d)) [
    | inl threw ↦ inl (rw threw refl)
    | inr (d1, wrote) ↦ elim (Option-cases (create_all tables m.key.tenant_id new d1)) [
      | inl threw ↦ inl (rw (wrote, threw) refl)
      | inr (d2, created) ↦
          inr (d2, rw (wrote, created) refl, stored m new made d d1 d2 wrote created)
    ]
  ]

  settled :
      (m : IngestedMessageData) (new : List OutboxEventInput) (made : String) (d : Db)
      → set_tenant m.key.tenant_id d ≡ true
      → (o : Option IngestedMessage) → find m.key d ≡ o
      → Attempt m new made o d (save_new tables m new made o d)
      → Outcome m new made d
  unfolding Attempt save run_in_tenant_transaction
  settled m new made d set (some old) f h = inr (inl (old, f, rw (set, f) (ap (settle tables d) h)))
  settled m new made d set none f (inl h) = inl (rw (set, f) (ap (settle tables d) h))
  settled m new made d set none f (inr (d', h, s)) =
      inr (inr (d', f, rw (set, f) (ap (settle tables d) h), s))

  -- A save either throws and changes nothing, or finds the message stored and returns that row and
  -- changes nothing, or finds no row and then stores the message and all of its events, in their order
  -- and behind those that are there: never a part of it, and never a second time.
  pub save_outcome :
      (m : IngestedMessageData) (new : List OutboxEventInput) (made : String) (d : Db)
      → Outcome m new made d
  unfolding save run_in_tenant_transaction
  save_outcome m new made d = elim (Bool-cases (set_tenant m.key.tenant_id d)) [
    | inl set ↦
        settled m new made d set (find m.key d) refl (save_new_lem m new made (find m.key d) d)
    | inr refused ↦ inl (rw refused refl)
  ]

  -- The arguments of a save: the message, its events, and the id that the database would make.
  abbrev pub Delivery : Type 0
  Delivery = IngestedMessageData × List OutboxEventInput × String

  abbrev pub run : List Delivery → Db → Db
  run [] d = d
  run ((m, new, made) ∷ more) d = run more (save tables m new made d).1

  stored_keeps :
      (m : IngestedMessageData) (new : List OutboxEventInput) (made : String) (d d' : Db)
      (k : IngestedKey) (row : IngestedMessage)
      → find k d ≡ some row
      → find m.key d ≡ none
      → IsStored m new made d d'
      → find k d' ≡ some row
  stored_keeps m new made d d' k row h f s = elim (Bool-cases (same_message m.key k)) [
    | inl same ↦
        let absent : find k d ≡ none =
          subst (λ j. find j d ≡ none) ((ingested_key_eq.same_iff m.key k).0 same) f in
        cc
    | inr other ↦ s.0 k ∙ rw other h
  ]

  outcome_keeps :
      (m : IngestedMessageData) (new : List OutboxEventInput) (made : String) (d : Db)
      (k : IngestedKey) (row : IngestedMessage)
      → find k d ≡ some row
      → Outcome m new made d
      → find k (save tables m new made d).1 ≡ some row
  outcome_keeps m new made d k row h (inl threw) = rw threw h
  outcome_keeps m new made d k row h (inr (inl (old, f, same))) = rw same h
  outcome_keeps m new made d k row h (inr (inr (d', f, done, s))) =
      rw done (stored_keeps m new made d d' k row h f s)

  run_keeps :
      (ds : List Delivery) (d : Db) (k : IngestedKey) (row : IngestedMessage)
      → find k d ≡ some row
      → find k (run ds d) ≡ some row
  run_keeps [] d k row h = h
  run_keeps ((m, new, made) ∷ more) d k row h =
      run_keeps more (save tables m new made d).1 k row
        (outcome_keeps m new made d k row h (save_outcome m new made d))

  found_after :
      (m : IngestedMessageData) (new : List OutboxEventInput) (made : String) (d d1 : Db)
      (row : IngestedMessage)
      → save tables m new made d ≡ (some row, d1)
      → Outcome m new made d
      → find m.key d1 ≡ some row
  found_after m new made d d1 row h (inl threw) = let same = ap (λ p. p.0) (sym threw ∙ h) in cc
  found_after m new made d d1 row h (inr (inl (old, f, done))) =
      let same = sym done ∙ h in
      subst (λ x. find m.key x ≡ some row) (ap (λ p. p.1) same) (f ∙ ap (λ p. p.0) same)
  found_after m new made d d1 row h (inr (inr (d', f, done, s))) =
      let same = sym done ∙ h in
      let there : find m.key d' ≡ some (ingested_row m made) =
        s.0 m.key ∙ rw ((ingested_key_eq.same_iff m.key m.key).1 refl) refl in
      subst (λ x. find m.key x ≡ some row) (ap (λ p. p.1) same) (there ∙ ap (λ p. p.0) same)

  -- Once a save has returned a row, a later save of a message with the same key, after any other saves,
  -- returns that row, unless the database refuses the tenant, and writes neither a row nor an event.
  pub save-run_again :
      (m : IngestedMessageData) (new : List OutboxEventInput) (made : String) (d d1 : Db)
      (row : IngestedMessage)
      → save tables m new made d ≡ (some row, d1)
      → (ds : List Delivery) (again : IngestedMessageData) → again.key ≡ m.key
      → (new' : List OutboxEventInput) (made' : String)
      → save tables again new' made' (run ds d1)
        ≡ ((if set_tenant again.key.tenant_id (run ds d1) then some row else none), run ds d1)
  unfolding save run_in_tenant_transaction save_new
  save-run_again m new made d d1 row h ds again key new' made' =
      let there =
        run_keeps ds d1 m.key row (found_after m new made d d1 row h (save_outcome m new made d)) in
      let here : find again.key (run ds d1) ≡ some row = ap (λ k. find k (run ds d1)) key ∙ there in
      elim (Bool-cases (set_tenant again.key.tenant_id (run ds d1))) [
        | inl set ↦ rw (set, here) refl
        | inr refused ↦ rw refused refl
      ]
