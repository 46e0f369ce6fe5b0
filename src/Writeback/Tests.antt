-- ===== src/Writeback/Tests.antt =====
-- Write-back on one message.
use volunteer_training.Prelude.Result.{ok}
use volunteer_training.Writeback.Adapters.{
  map_facet_to_gmail_label, map_facet_to_outlook_update, named,
}
use volunteer_training.Writeback.Platforms.{Alike, map_facet_to_gmail_label-Alike}
use volunteer_training.Prelude.{
  ◌≡◌, refl, inl, true, false, Option, none, some, List, [], ◌∷◌, arith, lookup, insert, insert_all,
}
use text.Mathlib.TextEquality.{eq_iff}
use volunteer_training.Prelude.Json.{get_field, Json, null, bool, str, obj, end, field}
use volunteer_training.Prelude.Store.{Store, function_store, update_at}
use volunteer_training.Writeback.Facet.{
  facet_type_eq, failed, category, threat, contact, priority, FacetApplication, applied, pending,
  create_facet, with_status, gmail, outlook,
}
use volunteer_training.Writeback.Failure.{
  auth_revoked_reason, platform_error_reason, rate_limited_reason,
}
use volunteer_training.Writeback.State.{
  MessageWritebackState, FacetMap, create, to_db, apply_facet, record_facet_failure,
}
use volunteer_training.Writeback.Idempotence.{apply_facet_twice}
use volunteer_training.Writeback.History.{Operation, apply, fail}
use volunteer_training.Writeback.Service.{
  MessageKey, message_key_eq, WritePort, settle, find_or_create_by_message_id, find_by_message_id,
  save, service_apply_facet,
}
use volunteer_training.Writeback.Isolation.{service_apply_facet-find_other}

abbrev quarantined : Json
quarantined = obj (field "quarantined" (bool true) end)

abbrev news : FacetApplication
news = record {
  facet_type = category;
  desired_value = str "News";
  last_known_platform_state = null;
  status = applied;
  last_attempt_at = some 5;
  retry_count = 1;
}

abbrev phish : FacetApplication
phish = record {
  facet_type = threat;
  desired_value = quarantined;
  last_known_platform_state = null;
  status = pending;
  last_attempt_at = none;
  retry_count = 0;
}

abbrev sample : MessageWritebackState
sample = record {
  tenant_id = "t";
  mailbox_id = "b";
  message_id = "m";
  facets = (category, news) ∷ (threat, phish) ∷ [];
  quarantine_active = false;
  domain_events = [];
}

messages :
    ((rate_limited_reason none).message ≡ "Rate limit exceeded")
    × ((rate_limited_reason (some "30")).message ≡ "Rate limit exceeded retry after 30")
    × ((platform_error_reason 503 "down").message ≡ "503: down")
    × ((platform_error_reason 503 "down").retryable ≡ true)
unfolding rate_limited_reason platform_error_reason
messages = (refl, refl, refl, refl)

apply_facet_twice_example :
    apply_facet (apply_facet sample contact (str "x") gmail 7) contact (str "x") outlook 8
    ≡ apply_facet sample contact (str "x") gmail 7
unfolding lookup
apply_facet_twice_example = apply_facet_twice sample contact (str "x") gmail outlook 7 8 (inl refl)

abbrev calls : List Operation
calls =
    fail category none 6
    ∷ apply threat quarantined gmail 7
    ∷ fail category (some auth_revoked_reason) 8
    ∷ []

-- An adapter that refuses every call.
abbrev refusing : WritePort
refusing mailbox message t v = record {
  success = false;
  applied_value = none;
  failure = some auth_revoked_reason;
}

abbrev here : MessageKey
here = record { tenant_id = "t"; mailbox_id = "b"; message_id = "m" }

abbrev there : MessageKey
there = record { tenant_id = "u"; mailbox_id = "b"; message_id = "m" }

abbrev rows : MessageKey → Option FacetMap
rows k = none

abbrev store : Store MessageKey FacetMap
store = function_store

abbrev refused : FacetApplication
refused = record {
  facet_type = category;
  desired_value = obj end;
  last_known_platform_state = null;
  status = failed;
  last_attempt_at = some 4;
  retry_count = 1;
}

abbrev rows_after : MessageKey → Option FacetMap
rows_after = update_at here ((category, refused) ∷ []) (update_at here [] rows)

refused_lem :
    service_apply_facet store refusing refusing here category (str "News") gmail 4 rows
    ≡ some rows_after
unfolding service_apply_facet find_or_create_by_message_id find_by_message_id save settle insert_all
    create to_db record_facet_failure create_facet with_status lookup insert auth_revoked_reason
refused_lem = refl

service_apply_facet-find_other_example : rows_after there ≡ rows there
service_apply_facet-find_other_example =
    service_apply_facet-find_other store refusing refusing here there category (str "News") gmail 4
      rows rows_after (λ e. ground (arith, eq_iff here.tenant_id there.tenant_id)) refused_lem

-- A priority that names its tier.
abbrev urgent : Json
urgent = obj (field "tier" (str "high") end)

map_facet_to_gmail_label-Alike_example :
    Alike
      (map_facet_to_gmail_label (λ s. s) priority urgent)
      (map_facet_to_outlook_update (λ s. s) priority urgent)
map_facet_to_gmail_label-Alike_example = map_facet_to_gmail_label-Alike (λ s. s) priority urgent

urgent_label : map_facet_to_gmail_label (λ s. s) priority urgent ≡ ok (some "saas/priority-high")
unfolding map_facet_to_gmail_label named get_field
urgent_label = refl
