-- ===== src/Writeback/Adapters.antt =====
-- src/mailbox-writeback/infrastructure/adapters: gmail-writeback.adapter.ts and
-- outlook-writeback.adapter.ts. Both pretend to call their platform; the draw that makes such a call
-- fail is an argument, and so is `toLowerCase`.
use Prim.Native.String.{◌++◌}
use volunteer_training.Prelude.{
  ℕ, Bool, true, false, ◌||◌, Option, none, some, String, nat_beq, if◌then◌else◌, ◌===◌, string_eq,
}
use volunteer_training.Prelude.Json.{
  Json, Fields, null, bool, str, arr, obj, cons, nil, field, end, get_field, is_truthy, is_set,
}
use volunteer_training.Prelude.Result.{Result, ok, throws, ◌>>=◌}
use volunteer_training.Writeback.Facet.{FacetType, category, threat, contact, priority}
use volunteer_training.Writeback.Failure.{
  WritebackFailureReason, rate_limited_reason, auth_revoked_reason, message_deleted_reason,
  platform_error_reason,
}
use volunteer_training.Writeback.Service.{ApplyFacetResult}

-- `desiredValue?.key || desiredValue`
unfoldable pub named : String → Json → Json
unfolding get_field
named key v = elim (get_field key v) [ none ↦ v | some w ↦ if is_truthy w then w else v ]

abbrev pub flag : String → Json → Bool
flag key v = is_set (get_field key v)

abbrev pub no_text_message : String
no_text_message = "toLowerCase is not a function"

abbrev pub tier_category : String → String
tier_category tier =
    if tier === "critical"
    then "Priority-Critical"
    else if tier === "high"
    then "Priority-High"
    else if tier === "low"
    then "Priority-Low"
    else "Priority-Normal"

abbrev pub tier_importance : String → String
tier_importance tier =
    if tier === "critical" || tier === "high"
    then "high"
    else if tier === "low"
    then "low"
    else "normal"

abbrev pub categories : Json → Fields → Fields
categories c rest = field "categories" (arr (cons c nil)) rest

abbrev pub unread : String → Option Json
unread name = some (obj (categories (str name) (field "isRead" (bool false) end)))

abbrev pub succeeds : Json → ApplyFacetResult
succeeds v = record { success = true; applied_value = some v; failure = none }

abbrev pub fails_with : WritebackFailureReason → ApplyFacetResult
fails_with f = record { success = false; applied_value = none; failure = some f }

-- The pretended call, after the mapping: it fails on an unlucky draw.
abbrev pub pretended : String → Bool → Option Json → ApplyFacetResult
unfolding platform_error_reason
pretended message unlucky none = succeeds null
pretended message unlucky (some v) =
    if unlucky then fails_with (platform_error_reason 500 message) else succeeds v

abbrev pub text_json : Option String → Option Json
text_json none = none
text_json (some s) = some (str s)

module _ (to_lower_case : String → String) where
  -- `value.toLowerCase()`, which throws on what is no text.
  abbrev pub lower : Json → Result String
  lower (str s) = ok (to_lower_case s)
  lower v = throws no_text_message

  abbrev pub prefixed : String → Json → Result (Option String)
  prefixed start v =
      let text = lower v >>= λ s. ok (some (start ++ s)) in if is_truthy v then text else ok none

  unfoldable pub map_facet_to_gmail_label : FacetType → Json → Result (Option String)
  unfolding named get_field
  map_facet_to_gmail_label category v = prefixed "saas/" (named "category" v)
  map_facet_to_gmail_label threat v = ok (
      if flag "quarantine_locked" v || flag "quarantined" v
      then some "saas/quarantine"
      else if flag "phishing" v
      then some "saas/phishing"
      else none)
  map_facet_to_gmail_label contact v = ok (if flag "personal" v then some "saas/personal" else none)
  map_facet_to_gmail_label priority v = prefixed "saas/priority-" (named "tier" v)

  abbrev pub tier_update : Json → Result (Option Json)
  tier_update tier = lower tier >>= λ t. ok (
      some (
        obj
          (categories (str (tier_category t)) (field "importance" (str (tier_importance t)) end))))

  -- The update, or `none` where it would have no field.
  unfoldable pub map_facet_to_outlook_update : FacetType → Json → Result (Option Json)
  unfolding named get_field
  map_facet_to_outlook_update category v =
      let name = named "category" v in
      ok (if is_truthy name then some (obj (categories name end)) else none)
  map_facet_to_outlook_update threat v = ok (
      if flag "quarantine_locked" v || flag "quarantined" v
      then unread "Quarantine"
      else if flag "phishing" v
      then unread "Phishing"
      else none)
  map_facet_to_outlook_update contact v =
      ok (if flag "personal" v then some (obj (categories (str "Personal") end)) else none)
  map_facet_to_outlook_update priority v =
      let update = tier_update (named "tier" v) in
      if is_truthy (named "tier" v) then update else ok none

  unfoldable pub gmail_apply_facet : FacetType → Json → Bool → Result ApplyFacetResult
  unfolding map_facet_to_gmail_label pretended
  gmail_apply_facet t v unlucky = map_facet_to_gmail_label t v >>= λ l.
      ok (pretended "Simulated Gmail API error" unlucky (text_json l))

  unfoldable pub outlook_apply_facet : FacetType → Json → Bool → Result ApplyFacetResult
  unfolding map_facet_to_outlook_update pretended
  outlook_apply_facet t v unlucky =
      map_facet_to_outlook_update t v >>= λ u. ok (pretended "Simulated Graph API error" unlucky u)

-- What an error of a call becomes, by its status, its `retry-after` and its message.
unfoldable pub failure_of : ℕ → Option String → String → WritebackFailureReason
unfolding rate_limited_reason auth_revoked_reason message_deleted_reason platform_error_reason
failure_of status retry_after message =
    if nat_beq status 429
    then rate_limited_reason retry_after
    else if nat_beq status 401 || nat_beq status 403
    then auth_revoked_reason
    else if nat_beq status 404
    then message_deleted_reason
    else platform_error_reason status message
