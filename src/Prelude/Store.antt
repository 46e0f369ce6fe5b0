-- ===== src/Prelude/Store.antt =====
-- The database as its clients see it. Prisma and PostgreSQL are not in the repository, so a table of
-- rows under a unique key is an interface: what it holds under a key, and a write (a create, an
-- update or an upsert of the row of one key) that either happens or throws and changes nothing.
use mathlib.Core.Path.{◌≡◌, sym, ap, ◌∙◌}
use mathlib.Core.Option.{Option, none, some}
use volunteer_training.Prelude.Tests.{if◌then◌else◌, Eq, ◌===◌}

pub record Store (K R : Type 0) ⦃e : Eq K⦄ : Type 1 where
  pub Db : Type 0
  pub find : K → Db → Option R
  pub write : K → R → Db → Option Db
  -- A write that happens is seen by every later read, and other rows keep their values.
  pub find_written :
      (k j : K) (r : R) (db db' : Db)
      → write k r db ≡ some db'
      → find j db' ≡ (if k === j then some r else find j db)

module _ {K R : Type 0} ⦃e : Eq K⦄ where
  -- A table as a function, on which every write happens: it shows that the laws can be met.
  abbrev pub update_at : K → R → (K → Option R) → K → Option R
  update_at k r db j = if k === j then some r else db j

  abbrev pub at : K → Option (K → Option R) → Option R
  at j none = none
  at j (some db) = db j

  abbrev pub update_at_written :
      (k j : K) (r : R) (db db' : K → Option R)
      → some (update_at k r db) ≡ some db'
      → db' j ≡ (if k === j then some r else db j)
  update_at_written k j r db db' h = ap (at j) (sym h)

  abbrev pub function_store : Store K R
  function_store = record {
    Db = K → Option R;
    find = λ k db. db k;
    write = λ k r db. some (update_at k r db);
    find_written = update_at_written;
  }

-- A table that holds one row: `findFirst`, `create` and `updateMany`, which may throw.
pub record RowTable (R : Type 0) : Type 1 where
  pub Db : Type 0
  pub first : Db → Option R
  pub create : R → Db → Option Db
  pub update_all : (R → R) → Db → Option Db
  -- A row that is created in an empty table is found.
  pub first_created :
      (r : R) (db db' : Db) → first db ≡ none → create r db ≡ some db' → first db' ≡ some r
  -- An update that happens changes the row that is there.
  pub first_updated :
      (f : R → R) (r : R) (db db' : Db)
      → first db ≡ some r
      → update_all f db ≡ some db'
      → first db' ≡ some (f r)

module _ {R : Type 0} where
  abbrev pub or_none : Option R → Option (Option R) → Option R
  or_none d none = d
  or_none d (some db) = db

  abbrev pub map_row : (R → R) → Option R → Option R
  map_row f none = none
  map_row f (some r) = some (f r)

  abbrev pub row_created : (r : R) (db : Option R) → some (some r) ≡ some db → db ≡ some r
  row_created r db w = sym (ap (or_none (some r)) w)

  abbrev pub row_updated :
      (f : R → R) (r : R) (db db' : Option R)
      → db ≡ some r
      → some (map_row f db) ≡ some db'
      → db' ≡ some (f r)
  row_updated f r db db' e w = sym (ap (or_none (map_row f db)) w) ∙ ap (map_row f) e

  -- A table as an optional row, on which every call happens.
  abbrev pub option_table : RowTable R
  option_table = record {
    Db = Option R;
    first = λ db. db;
    create = λ r db. some (some r);
    update_all = λ f db. some (map_row f db);
    first_created = λ r db db' e w. row_created r db' w;
    first_updated = row_updated;
  }
