-- ===== src/Writeback/Service.antt =====
-- The repository and the application service (src/mailbox-writeback/infrastructure/repositories and
-- src/mailbox-writeback/application/services).
use volunteer_training.Prelude.{
  ℕ, ◌≡◌, ◌↔◌, Bool, true, ◌&&◌, Option, none, some, String, arith, Eq, string_eq, ◌===◌,
  if◌then◌else◌,
}
use volunteer_training.Prelude.Json.{Json}
use volunteer_training.Prelude.Attempt.{◌>>=◌}
use volunteer_training.Prelude.Store.{Store}
use volunteer_training.Writeback.Facet.{FacetType, Platform, gmail, outlook}
use volunteer_training.Writeback.Failure.{WritebackFailureReason}
use volunteer_training.Writeback.State.{
  FacetMap, MessageWritebackState, create, from_db, to_db, apply_facet, record_facet_failure,
}

-- The unique key of a row: tenant, mailbox and message.
pub record MessageKey : Type 0 where
  pub tenant_id : String
  pub mailbox_id : String
  pub message_id : String

abbrev pub same_key : MessageKey → MessageKey → Bool
same_key a b =
    a.tenant_id === b.tenant_id && (a.mailbox_id === b.mailbox_id && a.message_id === b.message_id)

pub same_key_iff : (a b : MessageKey) → (same_key a b ≡ true) ↔ (a ≡ b)
same_key_iff a b = ground (
  arith,
  string_eq.same_iff a.tenant_id b.tenant_id,
  string_eq.same_iff a.mailbox_id b.mailbox_id,
  string_eq.same_iff a.message_id b.message_id,
)

instance abbrev pub message_key_eq : Eq MessageKey
message_key_eq = record { same = same_key; same_iff = same_key_iff }

-- mailbox-write.port.ts
pub record ApplyFacetResult : Type 0 where
  pub success : Bool
  pub applied_value : Option Json
  pub failure : Option WritebackFailureReason

-- What an adapter answers to a call.
abbrev pub WritePort : Type 0
WritePort = String → String → FacetType → Json → ApplyFacetResult

-- What the service makes of the adapter's answer.
unfoldable pub settle :
    ApplyFacetResult
    → MessageWritebackState
    → FacetType
    → Json
    → Platform
    → ℕ
    → MessageWritebackState
settle result s t v platform now =
    if result.success
    then apply_facet s t v platform now
    else record_facet_failure s t result.failure now

-- The pick of the adapter.
abbrev pub pick : Platform → WritePort → WritePort → WritePort
pick gmail g o = g
pick outlook g o = o

-- `if (!record) return null;`, else the aggregate of the row.
abbrev pub of_row : MessageKey → Option FacetMap → Option MessageWritebackState
of_row k none = none
of_row k (some facets) = some (from_db k.tenant_id k.mailbox_id k.message_id facets)

module _ (db : Store MessageKey FacetMap) where
  open db use {Db, find, write}

  unfoldable pub find_by_message_id : MessageKey → Db → Option MessageWritebackState
  find_by_message_id k d = of_row k (find k d)

  -- Both branches write the facets of the aggregate under its key; `none` is a throw.
  unfoldable pub save : MessageWritebackState → String → Db → Option Db
  save s tenant d =
      write (record { tenant_id = tenant; mailbox_id = s.mailbox_id; message_id = s.message_id })
        (to_db s) d

  -- `if (existing) return existing;`, else create and save.
  unfoldable pub or_create :
      MessageKey → Db → Option MessageWritebackState → Option (MessageWritebackState × Db)
  or_create k d (some s) = some (s, d)
  or_create k d none = do
    let s = create k.tenant_id k.mailbox_id k.message_id
    d' ← save s k.tenant_id d
    some (s, d')

  unfoldable pub find_or_create_by_message_id :
      MessageKey → Db → Option (MessageWritebackState × Db)
  unfolding or_create
  find_or_create_by_message_id k d = or_create k d (find_by_message_id k d)

  unfoldable pub service_apply_facet :
      WritePort → WritePort → MessageKey → FacetType → Json → Platform → ℕ → Db → Option Db
  service_apply_facet g o k t v platform now d = do
    (s, d') ← find_or_create_by_message_id k d
    let result = pick platform g o k.mailbox_id k.message_id t v
    save (settle result s t v platform now) k.tenant_id d'
