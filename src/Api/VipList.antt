-- ===== src/Api/VipList.antt =====
-- What an update of the VIP list does to the profiles.
use volunteer_training.Prelude.{
  ◌≡◌, refl, sym, ap, ◌∙◌, Bool, Bool-cases, inl, inr, true, false, ◌&&◌, ◌||◌, some, List, [], ◌∷◌,
  map, String, ◌===◌, string_eq, any_of, if◌then◌else◌,
}
use mathlib.Core.Bool.{and-eq-true_iff}
use volunteer_training.Prelude.Attempt.{>>=-eq-some}
use volunteer_training.Api.Settings.{
  ProfileColumns, ProfileTable, is_sender, as_vip, update_vip_list,
}

abbrev pub is_listed : String → List String → ProfileColumns → Bool
is_listed tenant entries r = r.tenant_id === tenant && any_of (λ a. r.sender_address === a) entries

abbrev pub listed : String → List String → ProfileColumns → ProfileColumns
listed tenant entries r = if is_listed tenant entries r then as_vip r else r

twice : (c : Bool) (r : ProfileColumns) → (if c then as_vip r else as_vip r) ≡ as_vip r
twice true r = refl
twice false r = refl

with_one_more :
    (own here any_other : Bool)
    → (own && here) ≡ false
    → (own && any_other) ≡ (own && (here || any_other))
with_one_more false here c h = refl
with_one_more true false c h = refl
with_one_more true true c h = cc

one_more_if :
    (tenant address : String) (entries : List String) (r : ProfileColumns) (b : Bool)
    → is_sender tenant address r ≡ b
    → listed tenant entries (if b then as_vip r else r) ≡ listed tenant (address ∷ entries) r
one_more_if tenant address entries r true h =
    let (own, here) =
      (and-eq-true_iff (r.tenant_id === tenant) (r.sender_address === address)).0 h in
    let now : is_listed tenant (address ∷ entries) r ≡ true = rw (own, here) refl in
    twice (is_listed tenant entries r) r ∙ sym (ap (λ b. if b then as_vip r else r) now)
one_more_if tenant address entries r false h =
    ap (λ b. if b then as_vip r else r)
      (with_one_more (r.tenant_id === tenant) (r.sender_address === address)
        (any_of (λ a. r.sender_address === a) entries) h)

one_more :
    (tenant address : String) (entries : List String) (r : ProfileColumns)
    → listed tenant entries (if is_sender tenant address r then as_vip r else r)
      ≡ listed tenant (address ∷ entries) r
one_more tenant address entries r =
    one_more_if tenant address entries r (is_sender tenant address r) refl

map-map :
    (f g h : ProfileColumns → ProfileColumns)
    → ((r : ProfileColumns) → g (f r) ≡ h r)
    → (rs : List ProfileColumns) → map g (map f rs) ≡ map h rs
map-map f g h e [] = refl
map-map f g h e (r ∷ rs) = λ i. e r i ∷ map-map f g h e rs i

listed_none : (tenant : String) (r : ProfileColumns) → listed tenant [] r ≡ r
listed_none tenant r = elim (Bool-cases (r.tenant_id === tenant)) [
  | inl own ↦ rw own refl
  | inr foreign ↦ rw foreign refl
]

map_same : (tenant : String) (rs : List ProfileColumns) → map (listed tenant []) rs ≡ rs
map_same tenant [] = refl
map_same tenant (r ∷ rs) = λ i. listed_none tenant r i ∷ map_same tenant rs i

module _ (table : ProfileTable) where
  open table use {Db, rows, rows_updated, update_many}

  -- An update of a tenant's VIP list that returns has made every profile of the tenant whose address
  -- is listed a VIP that was not promoted automatically, and has left every other profile, those of
  -- other tenants and those that are no longer listed included, as it was.
  pub rows-update_vip_list :
      (tenant : String) (entries : List String) (d d' : Db)
      → update_vip_list table tenant entries d ≡ some d'
      → rows d' ≡ map (listed tenant entries) (rows d)
  unfolding update_vip_list
  rows-update_vip_list tenant [] d d' h =
      let same : d ≡ d' = cc in ap rows (sym same) ∙ sym (map_same tenant (rows d))
  rows-update_vip_list tenant (address ∷ entries) d d' h =
      let (d1, first, rest) =
        >>=-eq-some (update_many (is_sender tenant address) as_vip d)
          (update_vip_list table tenant entries) h in
      rows-update_vip_list tenant entries d1 d' rest
      ∙ ap (map (listed tenant entries)) (rows_updated (is_sender tenant address) as_vip d d1 first)
      ∙ map-map (λ r. if is_sender tenant address r then as_vip r else r) (listed tenant entries)
          (listed tenant (address ∷ entries)) (one_more tenant address entries) (rows d)
