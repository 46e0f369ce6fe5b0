-- ===== src/Identity/Scopes.antt =====
-- Which scopes are accepted.
use volunteer_training.Prelude.{
  ◌≡◌, ◌↔◌, ◌≢◌, refl, sym, ◌∙◌, ◌+◌, true, ◌||◌, none, List, [], ◌∷◌, String, arith, contains, add,
  add_all, add_all-IsDistinct, IsDistinct, contains-add, length, if◌then◌else◌, string_eq,
}
use text.Mathlib.TextEquality.{eq_iff}
use text.Mathlib.TextPositions.{eq_refl}
use volunteer_training.Prelude.Result.{ok}
use volunteer_training.Identity.ScopeSet.{
  Platform, gmail, outlook, min_scopes, first_outside, check_allowed, check_required, scope_set,
  minimal, all_in, equals,
}

contains-add_all :
    (xs set : List String) (k : String)
    → contains k (add_all xs set) ≡ (contains k set || contains k xs)
unfolding add_all contains
contains-add_all [] set k = ground arith
contains-add_all (x ∷ xs) set k =
    ground (arith, contains-add_all xs (add x set) k, contains-add x k set)

all_in_sound :
    (m ys : List String) (k : String)
    → all_in m ys ≡ true
    → contains k ys ≡ true
    → contains k m ≡ true
unfolding contains
all_in_sound m [] k h c = cc
all_in_sound m (y ∷ ys) k h c = ground (arith, all_in_sound m ys k, eq_iff y k)

all_in_complete :
    (m ys : List String)
    → ((k : String) → contains k ys ≡ true → contains k m ≡ true)
    → all_in m ys ≡ true
unfolding contains
all_in_complete m [] h = refl
all_in_complete m (y ∷ ys) h =
    let rest = all_in_complete m ys (λ k c. h k (ground arith)) in ground (arith, h y, eq_refl y)

all_in-add_all : (m xs : List String) → (all_in m (add_all xs []) ≡ true) ↔ (all_in m xs ≡ true)
unfolding contains
all_in-add_all m xs = (
  λ h.
      all_in_complete m xs
        (λ k c. all_in_sound m (add_all xs []) k h (contains-add_all xs [] k ∙ c)),
  λ h.
      all_in_complete m (add_all xs [])
        (λ k c. all_in_sound m xs k h (sym (contains-add_all xs [] k) ∙ c)),
)

first_outside_iff : (set ss : List String) → (first_outside set ss ≡ none) ↔ (all_in set ss ≡ true)
unfolding first_outside
first_outside_iff set [] = ((λ e. refl), (λ e. refl))
first_outside_iff set (s ∷ ss) = ground (arith, first_outside_iff set ss)

-- A list without repetition over two texts is as long as the number of them that it has.
length-two :
    (a b : String) (ys : List String)
    → a ≢ b
    → IsDistinct ys
    → all_in (a ∷ b ∷ []) ys ≡ true
    → length ys ≡ (if contains a ys then 1 else 0) + (if contains b ys then 1 else 0)
unfolding contains
length-two a b [] n d h = refl
length-two a b (y ∷ ys) n d h =
    ground (arith, length-two a b ys n d.1, eq_iff y a, eq_iff y b, eq_iff a y, eq_iff b y)

module _ (a b : String) (n : a ≢ b) (xs : List String) where
  -- The set made of the given scopes has the size of the two required ones and lies in them exactly
  -- when both are given and nothing else is.
  exact_set :
      (all_in xs (a ∷ b ∷ []) ≡ true) × (all_in (a ∷ b ∷ []) xs ≡ true)
      → (length (add_all xs []) ≡ 2) × (all_in (a ∷ b ∷ []) (add_all xs []) ≡ true)
  unfolding contains
  exact_set (required, allowed) =
      let inside = (all_in-add_all (a ∷ b ∷ []) xs).1 allowed in
      (
        ground (
          arith,
          length-two a b (add_all xs []) n (add_all-IsDistinct xs [] tt) inside,
          contains-add_all xs [] a,
          contains-add_all xs [] b,
        ),
        inside,
      )

  exact_list :
      (length (add_all xs []) ≡ 2) × (all_in (a ∷ b ∷ []) (add_all xs []) ≡ true)
      → (all_in xs (a ∷ b ∷ []) ≡ true) × (all_in (a ∷ b ∷ []) xs ≡ true)
  unfolding contains
  exact_list (size, inside) = (
    ground (
      arith,
      length-two a b (add_all xs []) n (add_all-IsDistinct xs [] tt) inside,
      contains-add_all xs [] a,
      contains-add_all xs [] b,
    ),
    (all_in-add_all (a ∷ b ∷ []) xs).0 inside,
  )

accepted_iff :
    (xs : List String) (p : Platform)
    → (scope_set xs p ≡ ok (record { scopes = xs; platform = p }))
      ↔ ((all_in xs (min_scopes p) ≡ true) × (all_in (min_scopes p) xs ≡ true))
unfolding scope_set check_required check_allowed
accepted_iff xs p =
    ground (arith, first_outside_iff xs (min_scopes p), first_outside_iff (min_scopes p) xs)

equals_iff :
    (xs : List String) (p : Platform)
    → (equals (record { scopes = xs; platform = p }) (minimal p) ≡ true)
      ↔ ((length (add_all xs []) ≡ 2) × (all_in (min_scopes p) (add_all xs []) ≡ true))
unfolding equals minimal add_all add contains
equals_iff xs gmail = ground arith
equals_iff xs outlook = ground arith

gmail_differ : ◌≢◌ {A = String} "gmail.modify" "gmail.labels"
gmail_differ e = ground (arith, eq_iff "gmail.modify" "gmail.labels")

outlook_differ : ◌≢◌ {A = String} "Mail.ReadWrite" "MailboxSettings.ReadWrite"
outlook_differ e = ground (arith, eq_iff "Mail.ReadWrite" "MailboxSettings.ReadWrite")

-- A list of scopes is accepted for a platform exactly when, as a set, it equals the minimal set of
-- that platform: none is missing and none is added, whatever the order and the repetitions.
pub scope_set_iff :
    (xs : List String) (p : Platform)
    → (scope_set xs p ≡ ok (record { scopes = xs; platform = p }))
      ↔ (equals (record { scopes = xs; platform = p }) (minimal p) ≡ true)
scope_set_iff xs gmail = (
  λ h. (equals_iff xs gmail).1 (exact_set _ _ gmail_differ xs ((accepted_iff xs gmail).0 h)),
  λ h. (accepted_iff xs gmail).1 (exact_list _ _ gmail_differ xs ((equals_iff xs gmail).0 h)),
)
scope_set_iff xs outlook = (
  λ h. (equals_iff xs outlook).1 (exact_set _ _ outlook_differ xs ((accepted_iff xs outlook).0 h)),
  λ h. (accepted_iff xs outlook).1 (exact_list _ _ outlook_differ xs ((equals_iff xs outlook).0 h)),
)
