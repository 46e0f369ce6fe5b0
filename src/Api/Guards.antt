-- ===== src/Api/Guards.antt =====
-- src/api/v1/guards, src/common/guards/tenant.guard.ts, src/common/decorators/tenant.decorator.ts and
-- src/common/interceptors/tenant-context.interceptor.ts. A refusal is a throw with its message.
use volunteer_training.Prelude.{
  Bool, true, false, not, ◌&&◌, Option, none, some, [], ◌∷◌, String, ◌===◌, string_eq, truthy,
  any_of, if◌then◌else◌,
}
use volunteer_training.Prelude.Result.{Result, ok, throws, ◌>>=◌}

-- What the guards read of a request: its headers, the tenant and the user of its user object, and the
-- parameter of its route; and what they write.
pub record Request : Type 0 where
  pub path : String
  pub api_key : Option String
  pub tenant_header : Option String
  pub user_header : Option String
  pub user_tenant : Option String
  pub user_id : Option String
  pub route_tenant : Option String
  pub tenant_id : Option String
  pub caller_id : Option String

-- `a || b`
abbrev pub or_else : Option String → Option String → Option String
or_else a b = if truthy a then a else b

unfoldable pub api_key_guard : Request → Result Request
api_key_guard r =
    if not (truthy r.api_key)
    then throws "Missing API key"
    else if not (truthy r.tenant_header)
    then throws "Missing tenant ID"
    else ok
        (record r { tenant_id = r.tenant_header; user_tenant = r.tenant_header; user_id = none })

abbrev pub same_text : Option String → Option String → Bool
same_text none none = true
same_text (some a) (some b) = a === b
same_text _ _ = false

unfoldable pub api_tenant_scope_guard : Request → Result Request
api_tenant_scope_guard r =
    if truthy r.route_tenant && not (same_text r.route_tenant r.tenant_id)
    then throws "Access denied: tenant ID mismatch"
    else ok r

-- The guards of the controllers, in their order.
unfoldable pub guarded : Request → Result Request
unfolding api_key_guard api_tenant_scope_guard
guarded r = api_key_guard r >>= api_tenant_scope_guard

-- The decorator of a parameter.
abbrev pub tenant_of : Request → Option String
tenant_of r = r.tenant_id

-- A refusal is `none`.
unfoldable pub tenant_guard : Request → Option Request
tenant_guard r =
    let tenant = or_else r.tenant_header r.user_tenant in
    if not (truthy tenant)
    then none
    else some (record r { tenant_id = tenant; caller_id = or_else r.user_header r.user_id })

-- The interceptor; `starts_with` is that of strings.
unfoldable pub tenant_context : (String → String → Bool) → Request → Result Request
tenant_context starts_with r =
    let tenant = or_else r.tenant_header r.user_tenant in
    if any_of (λ p. starts_with r.path p) ("/health" ∷ "/metrics" ∷ [])
    then ok r
    else if not (truthy tenant)
    then throws "Missing tenantId"
    else ok (record r { tenant_id = tenant })
