-- ===== src/Prelude/Json.antt =====
-- JSON values, which the program keeps where its types say `any`.
use Prim.Native.String.{String}
use mathlib.Core.Path.{◌≡◌, refl}
use mathlib.Core.Logic.{◌↔◌}
use mathlib.Core.Bool.{Bool, true, false, not, ◌&&◌, and-eq-true_iff}
use mathlib.Core.Option.{Option, none, some}
use native.Mathlib.Omega.{arith}
use text.Mathlib.Text.{◌==◌ as str_beq}
use text.Mathlib.TextEquality.{eq_iff as str_beq_iff}
use volunteer_training.Prelude.Tests.{if◌then◌else◌, Eq}

mutual
  pub data Json : Type 0 where
    null : Json
    bool : Bool → Json
    num : String → Json  -- as `JSON.stringify` prints it
    str : String → Json
    arr : Items → Json
    obj : Fields → Json

  pub data Items : Type 0 where
    nil : Items
    cons : Json → Items → Items

  pub data Fields : Type 0 where
    end : Fields
    field : String → Json → Fields → Fields

abbrev pub bool_beq : Bool → Bool → Bool
bool_beq true true = true
bool_beq false false = true
bool_beq _ _ = false

-- `JSON.stringify(a) === JSON.stringify(b)`: the same value, the order of fields included.
unfoldable mutual
  pub same_json : Json → Json → Bool
  same_json null null = true
  same_json (bool a) (bool b) = bool_beq a b
  same_json (num a) (num b) = str_beq a b
  same_json (str a) (str b) = str_beq a b
  same_json (arr a) (arr b) = same_items a b
  same_json (obj a) (obj b) = same_fields a b
  same_json _ _ = false

  pub same_items : Items → Items → Bool
  same_items nil nil = true
  same_items (cons a as') (cons b bs) = same_json a b && same_items as' bs
  same_items _ _ = false

  pub same_fields : Fields → Fields → Bool
  same_fields end end = true
  same_fields (field k a as') (field l b bs) = str_beq k l && (same_json a b && same_fields as' bs)
  same_fields _ _ = false

mutual
  unfolding same_json same_items same_fields

  same_json_sound : (a b : Json) → same_json a b ≡ true → a ≡ b
  same_json_sound null null h = refl
  same_json_sound (bool a) (bool b) h = ground arith
  same_json_sound (num a) (num b) h = ground (arith, str_beq_iff a b)
  same_json_sound (str a) (str b) h = ground (arith, str_beq_iff a b)
  same_json_sound (arr a) (arr b) h = cc (same_items_sound a b h)
  same_json_sound (obj a) (obj b) h = cc (same_fields_sound a b h)
  same_json_sound _ _ h = cc

  same_items_sound : (a b : Items) → same_items a b ≡ true → a ≡ b
  same_items_sound nil nil h = refl
  same_items_sound (cons a c) (cons b d) h =
      let (p, q) = (and-eq-true_iff _ _).0 h in
      λ i. cons (same_json_sound a b p i) (same_items_sound c d q i)
  same_items_sound _ _ h = cc

  same_fields_sound : (a b : Fields) → same_fields a b ≡ true → a ≡ b
  same_fields_sound end end h = refl
  same_fields_sound (field k a c) (field l b d) h =
      let (p, q) = (and-eq-true_iff _ _).0 h in
      let (r, t) = (and-eq-true_iff _ _).0 q in
      λ i. field ((str_beq_iff k l).0 p i) (same_json_sound a b r i) (same_fields_sound c d t i)
  same_fields_sound _ _ h = cc

mutual
  unfolding same_json same_items same_fields

  same_json_refl : (a : Json) → same_json a a ≡ true
  same_json_refl null = refl
  same_json_refl (bool true) = refl
  same_json_refl (bool false) = refl
  same_json_refl (num a) = (str_beq_iff a a).1 refl
  same_json_refl (str a) = (str_beq_iff a a).1 refl
  same_json_refl (arr a) = same_items_refl a
  same_json_refl (obj a) = same_fields_refl a

  same_items_refl : (a : Items) → same_items a a ≡ true
  same_items_refl nil = refl
  same_items_refl (cons a b) = rw (same_json_refl a) (same_items_refl b)

  same_fields_refl : (a : Fields) → same_fields a a ≡ true
  same_fields_refl end = refl
  same_fields_refl (field k a b) =
      rw ((str_beq_iff k k).1 refl, same_json_refl a) (same_fields_refl b)

same_json_complete : (a b : Json) → a ≡ b → same_json a b ≡ true
same_json_complete a b e = rw (← e) (same_json_refl a)

pub same_json_iff : (a b : Json) → (same_json a b ≡ true) ↔ (a ≡ b)
same_json_iff a b = (same_json_sound a b, same_json_complete a b)

instance abbrev pub json_eq : Eq Json
json_eq = record { same = same_json; same_iff = same_json_iff }

abbrev pub lookup_field : String → Fields → Option Json
lookup_field k end = none
lookup_field k (field j v fs) = if str_beq j k then some v else lookup_field k fs

-- `value?.key`, where a value without fields and a missing key both give undefined.
unfoldable pub get_field : String → Json → Option Json
get_field k (obj fs) = lookup_field k fs
get_field k _ = none

-- `value?.key === true`
unfoldable pub field_is_true : String → Json → Bool
unfolding get_field
field_is_true k v = elim (get_field k v) [ some (bool true) ↦ true | _ ↦ false ]

-- A value as a condition.
abbrev pub is_truthy : Json → Bool
is_truthy null = false
is_truthy (bool b) = b
is_truthy (num n) = not (str_beq n "0")
is_truthy (str s) = not (str_beq s "")
is_truthy (arr items) = true
is_truthy (obj fields) = true

abbrev pub is_set : Option Json → Bool
is_set none = false
is_set (some v) = is_truthy v
