-- ===== src/Prelude/Assoc.antt =====
-- JavaScript's `Map` and `Set` as lists in insertion order, over any type of keys with a test.
use mathlib.Core.Path.{◌≡◌, refl, sym, ◌∙◌}
use mathlib.Core.Bool.{Bool, true, false, ◌||◌}
use mathlib.Core.Option.{Option, none, some}
use mathlib.Core.Logic.{inl, inr}
use mathlib.Core.List.{List, [], ◌∷◌, ◌++◌, append-nil, append_assoc}
use native.Mathlib.Omega.{arith}
use volunteer_training.Prelude.Tests.{if◌then◌else◌, Eq, ◌===◌, Bool-cases}

module _ {ℓ κ} {K : Type ℓ} {V : Type κ} ⦃e : Eq K⦄ where
  -- `map.get(key)`
  unfoldable pub lookup : K → List (K × V) → Option V
  lookup k [] = none
  lookup k ((j, v) ∷ m) = if j === k then some v else lookup k m

  -- `map.set(key, value)`: an old key keeps its place, a new one goes to the end.
  unfoldable pub insert : K → V → List (K × V) → List (K × V)
  insert k v [] = (k, v) ∷ []
  insert k v ((j, w) ∷ m) = if j === k then (j, v) ∷ m else (j, w) ∷ insert k v m

  pub lookup-insert :
      (k j : K) (v : V) (m : List (K × V))
      → lookup j (insert k v m) ≡ (if k === j then some v else lookup j m)
  unfolding lookup insert
  lookup-insert k j v [] = refl
  lookup-insert k j v ((i, w) ∷ m) =
      ground (arith, e.same_iff k j, e.same_iff i k, e.same_iff i j, lookup-insert k j v m)

  -- `map.set` for each entry of a list, in order.
  unfoldable pub insert_all : List (K × V) → List (K × V) → List (K × V)
  insert_all [] m = m
  insert_all ((k, v) ∷ entries) m = insert_all entries (insert k v m)

  -- No key twice, which a `Map` guarantees.
  abbrev pub HasDistinctKeys : List (K × V) → Type κ
  HasDistinctKeys [] = Unit
  HasDistinctKeys ((k, v) ∷ m) = (lookup k m ≡ none) × HasDistinctKeys m

  pub insert_new :
      (k : K) (v : V) (m : List (K × V)) → lookup k m ≡ none → insert k v m ≡ m ++ (k, v) ∷ []
  unfolding lookup insert
  insert_new k v [] h = refl
  insert_new k v ((j, w) ∷ m) h = ground (arith, insert_new k v m)

  pub insert-HasDistinctKeys :
      (k : K) (v : V) (m : List (K × V)) → HasDistinctKeys m → HasDistinctKeys (insert k v m)
  unfolding insert lookup
  insert-HasDistinctKeys k v [] h = (refl, tt)
  insert-HasDistinctKeys k v ((j, w) ∷ m) h = elim (Bool-cases (j === k)) [
    | inl same ↦ rw same h
    | inr other ↦ rw other (
      ground (arith, lookup-insert k j v m, e.same_iff j k, e.same_iff k j),
      insert-HasDistinctKeys k v m h.1,
    )
  ]

  absent-middle :
      (j k : K) (v : V) (m rest : List (K × V))
      → lookup j (m ++ (k, v) ∷ rest) ≡ none
      → (k === j) ≡ false
  unfolding lookup
  absent-middle j k v [] rest h = ground arith
  absent-middle j k v ((i, w) ∷ m) rest h = ground (arith, absent-middle j k v m rest)

  lookup_of_middle :
      (k : K) (v : V) (m rest : List (K × V))
      → HasDistinctKeys (m ++ (k, v) ∷ rest)
      → lookup k m ≡ none
  unfolding lookup
  lookup_of_middle k v [] rest h = refl
  lookup_of_middle k v ((j, w) ∷ m) rest h = ground (
    arith,
    absent-middle j k v m rest h.0,
    lookup_of_middle k v m rest h.1,
    e.same_iff j k,
    e.same_iff k j,
  )

  pub insert_all_append :
      (entries m : List (K × V))
      → HasDistinctKeys (m ++ entries)
      → insert_all entries m ≡ m ++ entries
  unfolding insert_all
  insert_all_append [] m h = sym (append-nil m)
  insert_all_append ((k, v) ∷ entries) m h =
      let same : (m ++ (k, v) ∷ []) ++ entries ≡ m ++ (k, v) ∷ entries =
        append_assoc m ((k, v) ∷ []) entries in
      rw (insert_new k v m (lookup_of_middle k v m entries h))
        (insert_all_append entries (m ++ (k, v) ∷ []) (rw same h) ∙ same)

  pub insert_all_self : (m : List (K × V)) → HasDistinctKeys m → insert_all m [] ≡ m
  insert_all_self m h = insert_all_append m [] h

module _ {ℓ} {K : Type ℓ} ⦃e : Eq K⦄ where
  -- `set.has(key)`
  unfoldable pub contains : K → List K → Bool
  contains k [] = false
  contains k (x ∷ xs) = x === k || contains k xs

  -- `set.add(key)`
  unfoldable pub add : K → List K → List K
  unfolding contains
  add k xs = if contains k xs then xs else xs ++ k ∷ []

  -- `set.delete(key)`
  unfoldable pub delete : K → List K → List K
  delete k [] = []
  delete k (x ∷ xs) = if x === k then xs else x ∷ delete k xs

  -- No key twice, which a `Set` guarantees.
  abbrev pub IsDistinct : List K → Type 0
  IsDistinct [] = Unit
  IsDistinct (x ∷ xs) = (contains x xs ≡ false) × IsDistinct xs

  pub beq_refl : (k : K) → (k === k) ≡ true
  beq_refl k = (e.same_iff k k).1 refl

  pub contains-append_one :
      (k j : K) (xs : List K) → contains j (xs ++ k ∷ []) ≡ (contains j xs || k === j)
  unfolding contains
  contains-append_one k j [] = ground arith
  contains-append_one k j (x ∷ xs) = ground (arith, contains-append_one k j xs)

  pub contains-add : (k j : K) (xs : List K) → contains j (add k xs) ≡ (k === j || contains j xs)
  unfolding add
  contains-add k j xs = ground (arith, contains-append_one k j xs, e.same_iff k j)

  append_one-IsDistinct :
      (k : K) (xs : List K) → contains k xs ≡ false → IsDistinct xs → IsDistinct (xs ++ k ∷ [])
  unfolding contains
  append_one-IsDistinct k [] n h = (refl, tt)
  append_one-IsDistinct k (x ∷ xs) n h = (
    ground (arith, contains-append_one k x xs, e.same_iff x k, e.same_iff k x),
    append_one-IsDistinct k xs (ground arith) h.1,
  )

  pub add-IsDistinct : (k : K) (xs : List K) → IsDistinct xs → IsDistinct (add k xs)
  unfolding add
  add-IsDistinct k xs h = elim (Bool-cases (contains k xs)) [
    | inl old ↦ rw old h
    | inr new ↦ rw new (append_one-IsDistinct k xs new h)
  ]

  contains-delete_other :
      (k j : K) (xs : List K) → (k === j) ≡ false → contains j (delete k xs) ≡ contains j xs
  unfolding contains delete
  contains-delete_other k j [] n = refl
  contains-delete_other k j (x ∷ xs) n =
      ground (arith, contains-delete_other k j xs n, e.same_iff x k, e.same_iff x j, e.same_iff k j)

  pub contains-delete :
      (k j : K) (xs : List K)
      → IsDistinct xs
      → contains j (delete k xs) ≡ (if k === j then false else contains j xs)
  unfolding contains delete
  contains-delete k j [] h = ground arith
  contains-delete k j (x ∷ xs) h =
      ground (arith, contains-delete k j xs h.1, e.same_iff x k, e.same_iff x j, e.same_iff k j)

  pub delete-IsDistinct : (k : K) (xs : List K) → IsDistinct xs → IsDistinct (delete k xs)
  unfolding delete
  delete-IsDistinct k [] h = tt
  delete-IsDistinct k (x ∷ xs) h = elim (Bool-cases (x === k)) [
    | inl same ↦ rw same h.1
    | inr other ↦ rw other (
      ground (arith, contains-delete_other k x xs, e.same_iff x k, e.same_iff k x),
      delete-IsDistinct k xs h.1,
    )
  ]

  -- `new Set(array)`
  unfoldable pub add_all : List K → List K → List K
  add_all [] set = set
  add_all (x ∷ xs) set = add_all xs (add x set)

  pub add_all-IsDistinct : (xs set : List K) → IsDistinct set → IsDistinct (add_all xs set)
  unfolding add_all
  add_all-IsDistinct [] set h = h
  add_all-IsDistinct (x ∷ xs) set h = add_all-IsDistinct xs (add x set) (add-IsDistinct x set h)

  absent_middle :
      (y x : K) (set rest : List K) → contains y (set ++ x ∷ rest) ≡ false → (x === y) ≡ false
  unfolding contains
  absent_middle y x [] rest h = ground arith
  absent_middle y x (z ∷ set) rest h = ground (arith, absent_middle y x set rest)

  contains_of_middle :
      (x : K) (set rest : List K) → IsDistinct (set ++ x ∷ rest) → contains x set ≡ false
  unfolding contains
  contains_of_middle x [] rest h = refl
  contains_of_middle x (y ∷ set) rest h = ground (
    arith,
    absent_middle y x set rest h.0,
    contains_of_middle x set rest h.1,
    e.same_iff x y,
    e.same_iff y x,
  )

  pub add_all_append : (xs set : List K) → IsDistinct (set ++ xs) → add_all xs set ≡ set ++ xs
  unfolding add_all add
  add_all_append [] set h = sym (append-nil set)
  add_all_append (x ∷ xs) set h =
      let same : (set ++ x ∷ []) ++ xs ≡ set ++ x ∷ xs = append_assoc set (x ∷ []) xs in
      rw (contains_of_middle x set xs h) (add_all_append xs (set ++ x ∷ []) (rw same h) ∙ same)

  pub add_all_self : (xs : List K) → IsDistinct xs → add_all xs [] ≡ xs
  add_all_self xs h = add_all_append xs [] h
