-- ===== src/Writeback/Facet.antt =====
-- src/mailbox-writeback/domain/value-objects/facet-application.ts and
-- platform-application-strategy.ts
use volunteer_training.Prelude.{
  ℕ, ◌+◌, ◌≡◌, ◌↔◌, Bool, true, false, ◌&&◌, Option, none, some, arith, Eq, if◌then◌else◌, ◌===◌,
}
use volunteer_training.Prelude.Json.{Json, null, json_eq}

pub data FacetType : Type 0 where
  category threat contact priority : FacetType

abbrev pub same_type : FacetType → FacetType → Bool
same_type category category = true
same_type threat threat = true
same_type contact contact = true
same_type priority priority = true
same_type _ _ = false

pub same_type_iff : (a b : FacetType) → (same_type a b ≡ true) ↔ (a ≡ b)
same_type_iff a b = ground arith

instance abbrev pub facet_type_eq : Eq FacetType
facet_type_eq = record { same = same_type; same_iff = same_type_iff }

pub data ApplicationStatus : Type 0 where
  pending applied failed : ApplicationStatus

abbrev pub is_applied : ApplicationStatus → Bool
is_applied applied = true
is_applied _ = false

abbrev pub is_failed : ApplicationStatus → Bool
is_failed failed = true
is_failed _ = false

pub record FacetApplication : Type 0 where
  pub facet_type : FacetType
  pub desired_value : Json
  pub last_known_platform_state : Json
  pub status : ApplicationStatus
  pub last_attempt_at : Option ℕ
  pub retry_count : ℕ

unfoldable pub create_facet : FacetType → Json → FacetApplication
create_facet t v = record {
  facet_type = t;
  desired_value = v;
  last_known_platform_state = null;
  status = pending;
  last_attempt_at = none;
  retry_count = 0;
}

unfoldable pub with_status : FacetApplication → ApplicationStatus → ℕ → FacetApplication
with_status f s at = record f {
  status = s;
  last_attempt_at = some at;
  retry_count = if is_failed s then f.retry_count + 1 else f.retry_count;
}

unfoldable pub with_platform_state : FacetApplication → Json → FacetApplication
with_platform_state f v = record f { last_known_platform_state = v }

unfoldable pub is_idempotent : FacetApplication → Bool
is_idempotent f = is_applied f.status && f.desired_value === f.last_known_platform_state

pub data Platform : Type 0 where
  gmail outlook : Platform

pub record PlatformApplicationStrategy : Type 0 where
  pub platform : Platform
  pub move_to_folder_on_quarantine : Bool
  pub move_to_folder_on_category : Bool
