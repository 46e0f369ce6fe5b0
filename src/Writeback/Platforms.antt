-- ===== src/Writeback/Platforms.antt =====
-- What the two platforms do with a facet, side by side.
use Prim.Native.String.{◌++◌}
use volunteer_training.Prelude.{
  ◌≡◌, refl, Bool, inl, inr, true, false, ◌||◌, Option, none, some, is_some, ◌⊎◌, String,
  if◌then◌else◌,
}
use mathlib.Core.Path.{subst}
use volunteer_training.Prelude.Json.{Json, null, bool, num, str, arr, obj, end, is_truthy}
use volunteer_training.Prelude.Result.{Result, ok, throws, ◌>>=◌}
use volunteer_training.Writeback.Facet.{FacetType, category, threat, contact, priority}
use volunteer_training.Writeback.Adapters.{
  named, flag, lower, prefixed, map_facet_to_gmail_label, tier_update, map_facet_to_outlook_update,
  categories, no_text_message,
}

-- The same facets are applied on both platforms, or the value is no text where a text is needed.
abbrev pub Alike : Result (Option String) → Result (Option Json) → Type 0
Alike g o =
    (g ≡ throws no_text_message)
    ⊎ ((l : Option String) × (u : Option Json) × (g ≡ ok l) × (o ≡ ok u) × (is_some l ≡ is_some u))

both :
    (b : Bool) (l : String) (u : Json)
    → Alike (ok (if b then some l else none)) (ok (if b then some u else none))
both true l u = inr (some l, some u, refl, refl, refl)
both false l u = inr (none, none, refl, refl, refl)

both_of_three :
    (a b : Bool) (l m : String) (u v : Json)
    → Alike
        (ok (if a then some l else if b then some m else none))
        (ok (if a then some u else if b then some v else none))
both_of_three true b l m u v = inr (some l, some u, refl, refl, refl)
both_of_three false b l m u v = both b m v

module _ (to_lower_case : String → String) where
  abbrev labelled_text : String → Json → Result (Option String)
  labelled_text start v = lower to_lower_case v >>= λ s. ok (some (start ++ s))

  -- A label that is the text of a value, beside an update that is there for every value.
  either_text :
      (start : String) (v : Json) (b : Bool) (u : Result (Option Json))
      → ((s : String) → v ≡ str s → (w : Json) × (u ≡ ok (some w)))
      → Alike (if b then labelled_text start v else ok none) (if b then u else ok none)
  either_text start v false u f = inr (none, none, refl, refl, refl)
  either_text start (str s) true u f =
      let (w, h) = f s refl in inr (some (start ++ to_lower_case s), some w, refl, h, refl)
  either_text start null true u f = inl refl
  either_text start (bool c) true u f = inl refl
  either_text start (num n) true u f = inl refl
  either_text start (arr items) true u f = inl refl
  either_text start (obj fields) true u f = inl refl

  always_ok :
      (b : Bool) (w : Json) → (if b then ok (some w) else ok none) ≡ ok (if b then some w else none)
  always_ok true w = refl
  always_ok false w = refl

  tier_update_of_text :
      (v : Json) (s : String) → v ≡ str s → (w : Json) × (tier_update to_lower_case v ≡ ok (some w))
  tier_update_of_text (str t) s h = (_, refl)
  tier_update_of_text null s h = cc
  tier_update_of_text (bool c) s h = cc
  tier_update_of_text (num n) s h = cc
  tier_update_of_text (arr items) s h = cc
  tier_update_of_text (obj fields) s h = cc

  -- For every facet and value, either the Gmail mapping throws, since the value is no text where a text
  -- is needed, or both mappings return, and Gmail gets a label exactly when Outlook gets an update.
  pub map_facet_to_gmail_label-Alike :
      (t : FacetType) (v : Json)
      → Alike
          (map_facet_to_gmail_label to_lower_case t v)
          (map_facet_to_outlook_update to_lower_case t v)
  unfolding map_facet_to_gmail_label map_facet_to_outlook_update
  map_facet_to_gmail_label-Alike category v =
      let name = named "category" v in
      let w = obj (categories name end) in
      subst (Alike (prefixed to_lower_case "saas/" name)) (always_ok (is_truthy name) w)
        (either_text "saas/" name (is_truthy name) (ok (some w)) (λ s h. (w, refl)))
  map_facet_to_gmail_label-Alike threat v =
      both_of_three (flag "quarantine_locked" v || flag "quarantined" v) (flag "phishing" v) _ _ _ _
  map_facet_to_gmail_label-Alike contact v = both (flag "personal" v) _ _
  map_facet_to_gmail_label-Alike priority v =
      let tier = named "tier" v in
      either_text "saas/priority-" tier (is_truthy tier) (tier_update to_lower_case tier)
        (tier_update_of_text tier)
