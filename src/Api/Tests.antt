-- ===== src/Api/Tests.antt =====
-- The examples of the API.
use volunteer_training.Prelude.{
  ◌≡◌, ◌⊎◌, refl, sym, ap, true, false, Option, none, some, List, [], ◌∷◌, map, string_eq,
  if◌then◌else◌,
}
use volunteer_training.Prelude.Int.{negsuc}
use volunteer_training.Prelude.Result.{ok}
use volunteer_training.Api.Guards.{Request, guarded, tenant_guard}
use volunteer_training.Api.Access.{is_allowed, passed, is_refused, guarded_lem}
use volunteer_training.Api.Settings.{ProfileColumns, ProfileTable, update_vip_list}
use volunteer_training.Api.VipList.{listed, rows-update_vip_list}
use volunteer_training.Api.Messages.{parsed_limit}

abbrev own_route : Request
own_route = record {
  path = "/v1/tenant-configuration/t1";
  api_key = some "any key";
  tenant_header = some "t1";
  user_header = none;
  user_tenant = none;
  user_id = none;
  route_tenant = some "t1";
  tenant_id = none;
  caller_id = none;
}

abbrev foreign_route : Request
foreign_route = record own_route { route_tenant = some "t2" }

guarded_lem_example :
    ((is_allowed foreign_route ≡ true) × (guarded foreign_route ≡ ok (passed foreign_route)))
    ⊎ ((is_allowed foreign_route ≡ false) × (is_refused (guarded foreign_route) ≡ true))
guarded_lem_example = guarded_lem foreign_route

own_route_passes : guarded own_route ≡ ok (passed own_route)
unfolding guarded
own_route_passes = refl

no_tenant : tenant_guard (record own_route { tenant_header = some "" }) ≡ none
unfolding tenant_guard
no_tenant = refl

negative_limit : parsed_limit "-7" ≡ negsuc 6
unfolding parsed_limit
negative_limit = refl

-- Tables of profiles as lists, on which every update happens.
abbrev profiles_or : List ProfileColumns → Option (List ProfileColumns) → List ProfileColumns
profiles_or d none = d
profiles_or d (some d') = d'

abbrev profile_lists : ProfileTable
profile_lists = record {
  Db = List ProfileColumns;
  rows = λ d. d;
  update_many = λ p f d. some (map (λ r. if p r then f r else r) d);
  rows_updated = λ p f d d' h. sym (ap (profiles_or d) h);
}

abbrev sender : ProfileColumns
sender = record {
  tenant_id = "t1";
  sender_address = "a@x";
  is_vip = true;
  vip_auto_promoted = true;
}

abbrev other_tenant : ProfileColumns
other_tenant = record sender { tenant_id = "t2"; is_vip = false }

abbrev now_vip : ProfileColumns
now_vip = record sender { vip_auto_promoted = false }

vip_updated :
    update_vip_list profile_lists "t1" ("a@x" ∷ []) (sender ∷ other_tenant ∷ [])
    ≡ some (now_vip ∷ other_tenant ∷ [])
unfolding update_vip_list
vip_updated = refl

rows-update_vip_list_example :
    (now_vip ∷ other_tenant ∷ []) ≡ map (listed "t1" ("a@x" ∷ [])) (sender ∷ other_tenant ∷ [])
rows-update_vip_list_example =
    rows-update_vip_list profile_lists "t1" ("a@x" ∷ []) (sender ∷ other_tenant ∷ [])
      (now_vip ∷ other_tenant ∷ []) vip_updated
