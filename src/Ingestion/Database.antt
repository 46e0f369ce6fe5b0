-- ===== src/Ingestion/Database.antt =====
-- src/database/tenant-transaction.ts, and the tables that the repositories of the ingestion write in
-- one transaction: one of rows under a unique key, and the outbox of events. Prisma and PostgreSQL are
-- an interface.
use volunteer_training.Prelude.{
  ◌≡◌, refl, sym, ap, ◌∙◌, Bool, Bool-cases, inl, inr, true, Option, none, some, List, [], ◌∷◌,
  ◌++◌, String, string_eq, Eq, ◌===◌, if◌then◌else◌,
}
use volunteer_training.Prelude.Json.{Json}
use volunteer_training.Prelude.Store.{map_row, update_at}
use volunteer_training.Prelude.Attempt.{◌>>=◌, >>=-eq-some}
use mathlib.Core.List.{append-nil, append_assoc}

pub record OutboxEventInput : Type 0 where
  pub aggregate_id : String
  pub aggregate_type : String
  pub event_type : String
  pub payload : Json

-- A row of the table of events.
pub record OutboxEvent : Type 0 where
  pub tenant_id : String
  pub event : OutboxEventInput

pub record Tables (K R : Type 0) ⦃e : Eq K⦄ : Type 1 where
  pub Db : Type 0
  pub find : K → Db → Option R
  pub events : Db → List OutboxEvent
  -- Whether the tenant of the transaction can be set.
  pub set_tenant : String → Db → Bool
  -- A create or an upsert, the update of the row with an id, and a new event; each may throw.
  pub write : K → R → Db → Option Db
  pub id_of : R → String
  pub update : String → (R → R) → Db → Option Db
  pub append : OutboxEvent → Db → Option Db
  pub find_written :
      (k j : K) (r : R) (d d' : Db)
      → write k r d ≡ some d'
      → find j d' ≡ (if k === j then some r else find j d)
  pub events_written : (k : K) (r : R) (d d' : Db) → write k r d ≡ some d' → events d' ≡ events d
  pub find_updated :
      (id : String) (f : R → R) (j : K) (d d' : Db)
      → update id f d ≡ some d'
      → find j d' ≡ map_row (λ r. if id_of r === id then f r else r) (find j d)
  pub events_updated :
      (id : String) (f : R → R) (d d' : Db) → update id f d ≡ some d' → events d' ≡ events d
  pub find_appended :
      (e : OutboxEvent) (j : K) (d d' : Db) → append e d ≡ some d' → find j d' ≡ find j d
  pub events_appended :
      (e : OutboxEvent) (d d' : Db) → append e d ≡ some d' → events d' ≡ events d ++ e ∷ []

module _ {K R : Type 0} ⦃e : Eq K⦄ (tables : Tables K R) where
  open tables use {Db, find, events, set_tenant, append, find_appended, events_appended}

  -- `$transaction`: what throws leaves the database as it was.
  abbrev pub settle : {A : Type 0} → Db → Option (A × Db) → Option A × Db
  settle d none = (none, d)
  settle d (some (a, d')) = (some a, d')

  settle_lem :
      {A : Type 0} (P : Db → Type 0) (d : Db) (o : Option (A × Db))
      → P d
      → ((a : A) (d' : Db) → o ≡ some (a, d') → P d')
      → P (settle d o).1
  settle_lem P d none before after = before
  settle_lem P d (some (a, d')) before after = after a d' refl

  unfoldable pub run_in_tenant_transaction :
      {A : Type 0} → String → (Db → Option (A × Db)) → Db → Option A × Db
  run_in_tenant_transaction tenant_id f d = settle d (if set_tenant tenant_id d then f d else none)

  -- The loop that writes the events.
  unfoldable pub create_all : String → List OutboxEventInput → Db → Option Db
  create_all tenant_id [] d = some d
  create_all tenant_id (event ∷ more) d =
      append (record { tenant_id = tenant_id; event = event }) d >>= create_all tenant_id more

  abbrev pub rows_of : String → List OutboxEventInput → List OutboxEvent
  rows_of tenant_id [] = []
  rows_of tenant_id (event ∷ more) =
      record { tenant_id = tenant_id; event = event } ∷ rows_of tenant_id more

  pub create_all_lem :
      (tenant_id : String) (new : List OutboxEventInput) (d d' : Db)
      → create_all tenant_id new d ≡ some d'
      → ((j : K) → find j d' ≡ find j d) × (events d' ≡ events d ++ rows_of tenant_id new)
  unfolding create_all
  create_all_lem tenant_id [] d d' h =
      let same : d ≡ d' = cc in
      (λ j. ap (find j) (sym same), ap events (sym same) ∙ sym (append-nil (events d)))
  create_all_lem tenant_id (event ∷ more) d d' h =
      let row : OutboxEvent = record { tenant_id = tenant_id; event = event } in
      let (d1, first, rest) = >>=-eq-some (append row d) (create_all tenant_id more) h in
      let (found, there) = create_all_lem tenant_id more d1 d' rest in
      (
        (λ j. found j ∙ find_appended row j d d1 first),
        there
            ∙ ap (λ l. l ++ rows_of tenant_id more) (events_appended row d d1 first)
            ∙ append_assoc (events d) (row ∷ []) (rows_of tenant_id more),
      )

  -- What holds of the database before a transaction and after its body holds after the transaction.
  pub run_in_tenant_transaction_lem :
      {A : Type 0} (P : Db → Type 0) (tenant_id : String) (f : Db → Option (A × Db)) (d : Db)
      → P d
      → ((a : A) (d' : Db) → f d ≡ some (a, d') → P d')
      → P (run_in_tenant_transaction tenant_id f d).1
  unfolding run_in_tenant_transaction
  run_in_tenant_transaction_lem P tenant_id f d before after =
      elim (Bool-cases (set_tenant tenant_id d)) [
        | inl set ↦ rw set (settle_lem P d (f d) before after)
        | inr refused ↦ rw refused before
      ]

-- Tables as a function and a list, on which every call happens: they show that the laws can be met.
abbrev pub Rows : Type 0 → Type 0 → Type 0
Rows K R = (K → Option R) × List OutboxEvent

module _ {K R : Type 0} where
  abbrev pub rows_or : Rows K R → Option (Rows K R) → Rows K R
  rows_or d none = d
  rows_or d (some d') = d'

  pub happened : (d d' : Rows K R) → some d ≡ some d' → d' ≡ d
  happened d d' h = sym (ap (rows_or d) h)

  abbrev pub updated_rows : (R → String) → String → (R → R) → Rows K R → Rows K R
  updated_rows name id g (f, l) = ((λ k. map_row (λ r. if name r === id then g r else r) (f k)), l)

  abbrev pub appended : OutboxEvent → Rows K R → Rows K R
  appended event (f, l) = (f, l ++ event ∷ [])

  module _ ⦃e : Eq K⦄ where
    abbrev pub put : K → R → Rows K R → Rows K R
    put k r (f, l) = (update_at k r f, l)

    abbrev pub function_tables : (R → String) → Tables K R
    function_tables name = record {
      Db = Rows K R;
      find = λ k d. d.0 k;
      events = λ d. d.1;
      set_tenant = λ t d. true;
      write = λ k r d. some (put k r d);
      id_of = name;
      update = λ id g d. some (updated_rows name id g d);
      append = λ event d. some (appended event d);
      find_written = λ k j r d d' h. ap (λ x. x.0 j) (happened (put k r d) d' h);
      events_written = λ k r d d' h. ap (λ x. x.1) (happened (put k r d) d' h);
      find_updated = λ id g j d d' h. ap (λ x. x.0 j) (happened (updated_rows name id g d) d' h);
      events_updated = λ id g d d' h. ap (λ x. x.1) (happened (updated_rows name id g d) d' h);
      find_appended = λ event j d d' h. ap (λ x. x.0 j) (happened (appended event d) d' h);
      events_appended = λ event d d' h. ap (λ x. x.1) (happened (appended event d) d' h);
    }
