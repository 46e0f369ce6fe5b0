-- ===== src/Rollout/Restart.antt =====
-- A restart finds the fields that the last call left.
use volunteer_training.Prelude.{
  ◌≡◌, refl, Option, none, some, List, [], ◌∷◌, add_all_self, string_eq,
}
use mathlib.Core.Path.{subst}
use volunteer_training.Prelude.Store.{RowTable}
use volunteer_training.Rollout.Canary.{
  Canary, CanaryRow, initial, Operation, change, or_old, save_state, perform, commit, restore,
  on_module_init,
}
use volunteer_training.Rollout.Slices.{IsRollout, initial-IsRollout, change-IsRollout}

module _ (table : RowTable CanaryRow) where
  open table use {Db, first, create, update_all, first_updated, first_created}

  pub perform_all : Canary × Db → List Operation → Canary × Db
  perform_all p [] = p
  perform_all p (o ∷ os) = perform_all (perform table p o) os

  -- The table holds the fields, and these are well formed.
  record IsSaved (p : Canary × Db) : Type 0 where
    stored : first p.1 ≡ some p.0
    sound : IsRollout p.0

  -- On this database no write throws.
  abbrev pub NeverThrows : Type 0
  NeverThrows =
      ((f : CanaryRow → CanaryRow) (d : Db) → (e : Db) × (update_all f d ≡ some e))
      × ((r : CanaryRow) (d : Db) → (e : Db) × (create r d ≡ some e))

  save_state-first :
      (s t : Canary) (db : Db)
      → NeverThrows
      → first db ≡ some s
      → first (save_state table t db) ≡ some t
  unfolding save_state
  save_state-first s t db up h =
      let (e, written) = up.0 (λ _. t) db in rw written (first_updated (λ _. t) s db e h written)

  commit-IsSaved :
      (s : Canary) (db : Db) (o : Operation) (c : Option Canary)
      → NeverThrows
      → IsSaved (s, db)
      → change s o ≡ c
      → IsSaved (commit table s db c)
  unfolding commit
  commit-IsSaved s db o none up h e = h
  commit-IsSaved s db o (some t) up h e = record {
    stored = save_state-first s t db up h.stored;
    sound = subst (λ c. IsRollout (or_old s c)) e (change-IsRollout s o h.sound);
  }

  perform_all-IsSaved :
      (p : Canary × Db) (os : List Operation) → NeverThrows → IsSaved p → IsSaved (perform_all p os)
  unfolding perform_all perform
  perform_all-IsSaved p [] up h = h
  perform_all-IsSaved p (o ∷ os) up h =
      perform_all-IsSaved (perform table p o) os up
        (commit-IsSaved p.0 p.1 o (change p.0 o) up h refl)

  started :
      (db : Db) {p : Canary × Db}
      → NeverThrows
      → first db ≡ none
      → on_module_init table initial db ≡ some p
      → IsSaved p
  unfolding on_module_init restore
  started db {p} up empty start =
      let (e, created) = up.1 initial db in
      let first_run : some (initial, e) ≡ some p = rw (empty, restore, created) at start in
      let same : (initial, e) ≡ p = cc first_run in
      subst IsSaved same
        (record { stored = first_created initial db e empty created; sound = initial-IsRollout })

  reloaded : (p : Canary × Db) → IsSaved p → on_module_init table initial p.1 ≡ some p
  unfolding on_module_init restore
  reloaded (s, d) h =
      rw (h.stored, restore, add_all_self s.beta_tenant_ids h.sound.tenants_distinct)

  -- Where no write throws, a service that was started on an empty table, took any calls, and is
  -- started again from fresh fields, has the fields that the last call left, and the same table.
  pub on_module_init-perform_all :
      (db : Db) (os : List Operation) {p : Canary × Db}
      → NeverThrows
      → first db ≡ none
      → on_module_init table initial db ≡ some p
      → on_module_init table initial (perform_all p os).1 ≡ some (perform_all p os)
  unfolding on_module_init restore
  on_module_init-perform_all db os {p} up empty start =
      reloaded (perform_all p os) (perform_all-IsSaved p os up (started db up empty start))
