-- ===== src/Api/Access.antt =====
-- Who gets through the guards.
use volunteer_training.Prelude.{
  ◌≡◌, ◌⊎◌, inl, inr, refl, sym, Bool, true, false, not, ◌&&◌, ◌||◌, none, string_eq, truthy,
  if◌then◌else◌,
}
use mathlib.Core.Path.{subst}
use volunteer_training.Prelude.Result.{Result, ok, throws, ◌>>=◌}
use volunteer_training.Api.Guards.{
  Request, api_key_guard, same_text, api_tenant_scope_guard, guarded,
}

abbrev pub is_allowed : Request → Bool
is_allowed r =
    truthy r.api_key
    && truthy r.tenant_header
    && (not (truthy r.route_tenant) || same_text r.route_tenant r.tenant_header)

abbrev pub passed : Request → Request
passed r = record r { tenant_id = r.tenant_header; user_tenant = r.tenant_header; user_id = none }

abbrev pub is_refused : Result Request → Bool
is_refused (ok r) = false
is_refused (throws message) = true

-- The two guards on the four tests that they make.
abbrev pub gate : Bool → Bool → Bool → Bool → Request → Result Request
gate key header route same r =
    (if not key
      then throws "Missing API key"
      else if not header
      then throws "Missing tenant ID"
      else ok r)
    >>= λ r. if route && not same then throws "Access denied: tenant ID mismatch" else ok r

gate_lem :
    (key header route same : Bool) (r : Request)
    → (((key && header && (not route || same)) ≡ true) × (gate key header route same r ≡ ok r))
      ⊎ (((key && header && (not route || same)) ≡ false)
          × (is_refused (gate key header route same r) ≡ true))
gate_lem false header route same r = inr (refl, refl)
gate_lem true false route same r = inr (refl, refl)
gate_lem true true false same r = inl (refl, refl)
gate_lem true true true true r = inl (refl, refl)
gate_lem true true true false r = inr (refl, refl)

guarded-gate :
    (r : Request) (key header : Bool)
    → ((if not key
          then throws "Missing API key"
          else if not header
          then throws "Missing tenant ID"
          else ok (passed r))
        >>= api_tenant_scope_guard)
      ≡ gate key header
          (truthy r.route_tenant)
          (same_text r.route_tenant r.tenant_header)
          (passed r)
unfolding api_tenant_scope_guard
guarded-gate r false header = refl
guarded-gate r true false = refl
guarded-gate r true true = refl

-- A request gets through the two guards exactly when it has an API key, names a tenant in its header,
-- and has that tenant, if any, in its route; the handler then works for the tenant of the header.
-- What the key is, decides nothing.
pub guarded_lem :
    (r : Request)
    → ((is_allowed r ≡ true) × (guarded r ≡ ok (passed r)))
      ⊎ ((is_allowed r ≡ false) × (is_refused (guarded r) ≡ true))
unfolding guarded api_key_guard
guarded_lem r =
    let lem =
      gate_lem (truthy r.api_key) (truthy r.tenant_header) (truthy r.route_tenant)
        (same_text r.route_tenant r.tenant_header) (passed r) in
    subst
      (λ (g : Result Request).
        ((is_allowed r ≡ true) × (g ≡ ok (passed r)))
        ⊎ ((is_allowed r ≡ false) × (is_refused g ≡ true)))
      (sym (guarded-gate r (truthy r.api_key) (truthy r.tenant_header))) lem
