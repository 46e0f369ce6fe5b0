-- ===== src/Writeback/State.antt =====
-- The aggregate (src/mailbox-writeback/domain/aggregates/message-writeback-state.aggregate.ts) and
-- its events. A method returns the new state; every `now` is an argument, as in the source.
use volunteer_training.Prelude.{
  ℕ, Bool, true, false, not, ◌&&◌, ◌||◌, Option, none, some, List, [], ◌∷◌, ◌++◌, String, lookup,
  insert, insert_all, if◌then◌else◌, ◌===◌,
}
use volunteer_training.Prelude.Json.{Json, obj, end, json_eq, field_is_true}
use volunteer_training.Writeback.Facet.{
  FacetType, threat, facet_type_eq, FacetApplication, applied, failed, is_applied, create_facet,
  with_status, with_platform_state, Platform,
}
use volunteer_training.Writeback.Failure.{WritebackFailureReason}

pub data DomainEvent : Type 0 where
  facet_applied_to_platform : String → String → String → FacetType → Platform → ℕ → DomainEvent
  writeback_failed :
      String → String → String → FacetType → Option WritebackFailureReason → ℕ → DomainEvent
  writeback_divergence_detected :
      String → String → String → FacetType → Json → Json → ℕ → DomainEvent

abbrev pub FacetMap : Type 0
FacetMap = List (FacetType × FacetApplication)

pub record MessageWritebackState : Type 0 where
  pub tenant_id : String
  pub mailbox_id : String
  pub message_id : String
  pub facets : FacetMap
  pub quarantine_active : Bool
  pub domain_events : List DomainEvent

-- The condition of `updateQuarantineStatus`.
abbrev pub quarantine_wanted : Option FacetApplication → Bool
quarantine_wanted none = false
quarantine_wanted (some f) =
    field_is_true "quarantined" f.desired_value || field_is_true "quarantine_locked" f.desired_value

unfoldable pub update_quarantine_status : MessageWritebackState → MessageWritebackState
update_quarantine_status s = record s {
  quarantine_active = quarantine_wanted (lookup threat s.facets);
}

unfoldable pub create : String → String → String → MessageWritebackState
create tenant mailbox message = record {
  tenant_id = tenant;
  mailbox_id = mailbox;
  message_id = message;
  facets = [];
  quarantine_active = false;
  domain_events = [];
}

-- The constructor at stored facets. `fromDb` and `toDb` of a facet copy its six fields.
unfoldable pub from_db : String → String → String → FacetMap → MessageWritebackState
unfolding update_quarantine_status create
from_db tenant mailbox message stored =
    update_quarantine_status
      (record (create tenant mailbox message) { facets = insert_all stored [] })

unfoldable pub to_db : MessageWritebackState → FacetMap
to_db s = insert_all s.facets []

unfoldable pub record_facet_application :
    MessageWritebackState → FacetApplication → MessageWritebackState
unfolding update_quarantine_status
record_facet_application s f =
    update_quarantine_status (record s { facets = insert f.facet_type f s.facets })

-- `facets.get(type) || FacetApplication.create(type, value)`
abbrev pub existing_or_new : FacetType → Json → Option FacetApplication → FacetApplication
existing_or_new t v none = create_facet t v
existing_or_new t v (some f) = f

-- The early return of `applyFacet`.
abbrev pub already_applied : Json → Option FacetApplication → Bool
already_applied v none = false
already_applied v (some f) = f.desired_value === v && is_applied f.status

unfoldable pub apply_facet :
    MessageWritebackState → FacetType → Json → Platform → ℕ → MessageWritebackState
apply_facet s t v platform now =
    let existing = lookup t s.facets in
    if already_applied v existing then s else record s {
      facets = insert t (with_status (existing_or_new t v existing) applied now) s.facets;
      domain_events =
          s.domain_events
          ++ facet_applied_to_platform s.tenant_id s.mailbox_id s.message_id t platform now ∷ [];
    }

unfoldable pub record_facet_failure :
    MessageWritebackState → FacetType → Option WritebackFailureReason → ℕ → MessageWritebackState
record_facet_failure s t reason now =
    let updated = with_status (existing_or_new t (obj end) (lookup t s.facets)) failed now in
    record s {
      facets = insert t updated s.facets;
      domain_events =
          s.domain_events
          ++ writeback_failed s.tenant_id s.mailbox_id s.message_id t reason updated.retry_count
            ∷ [];
    }

unfoldable pub detect_divergence :
    MessageWritebackState → FacetType → Json → ℕ → MessageWritebackState
detect_divergence s t observed now = elim (lookup t s.facets) [
  | none ↦ s
  | some f ↦ if f.last_known_platform_state === observed then s else record s {
    facets = insert t (with_platform_state f observed) s.facets;
    domain_events =
        s.domain_events
        ++ writeback_divergence_detected s.tenant_id s.mailbox_id s.message_id t
            f.last_known_platform_state observed now
          ∷ [];
  }
]

unfoldable pub should_suppress_facet : MessageWritebackState → FacetType → Bool
should_suppress_facet s t = if not s.quarantine_active || t === threat then false else true

unfoldable pub get_facet : MessageWritebackState → FacetType → Option FacetApplication
get_facet s t = lookup t s.facets

unfoldable pub clear_domain_events : MessageWritebackState → MessageWritebackState
clear_domain_events s = record s { domain_events = [] }
