-- ===== src/Writeback/Quarantine.antt =====
-- Which calls keep the quarantine flag in step with the threat facet, and what a reload restores.
use volunteer_training.Prelude.{
  ℕ, ◌≡◌, ◌↔◌, true, [], arith, lookup, insert, HasDistinctKeys, insert_all_self, ◌≢◌,
}
use volunteer_training.Prelude.Json.{Json, json_eq}
use volunteer_training.Writeback.Facet.{
  FacetType, threat, facet_type_eq, same_type_iff, FacetApplication, Platform,
}
use volunteer_training.Writeback.State.{
  MessageWritebackState, quarantine_wanted, update_quarantine_status, from_db, to_db,
  record_facet_application, apply_facet, should_suppress_facet,
}

-- Recording a facet keeps the flag in step: from then on exactly the facets other than `threat` are
-- suppressed, and only if the stored threat facet asks for quarantine.
pub should_suppress_facet-record :
    (s : MessageWritebackState) (f : FacetApplication) (t : FacetType)
    → (should_suppress_facet (record_facet_application s f) t ≡ true)
      ↔ ((quarantine_wanted (lookup threat (insert f.facet_type f s.facets)) ≡ true) × (t ≢ threat))
unfolding should_suppress_facet record_facet_application update_quarantine_status
should_suppress_facet-record s f t =
    (ground (arith, same_type_iff t threat), ground (arith, same_type_iff t threat))

-- Applying a facet leaves the suppression of every facet as it was, also where the applied facet is
-- a threat facet that asks for quarantine.
pub should_suppress_facet-apply :
    (s : MessageWritebackState) (t u : FacetType) (v : Json) (p : Platform) (now : ℕ)
    → should_suppress_facet (apply_facet s t v p now) u ≡ should_suppress_facet s u
unfolding should_suppress_facet apply_facet
should_suppress_facet-apply s t u v p now = ground arith

-- Storing a state and loading it keeps its facets in their order, drops its events, and computes the
-- quarantine flag anew from the threat facet.
pub from_db-to_db :
    (s : MessageWritebackState)
    → HasDistinctKeys s.facets
    → from_db s.tenant_id s.mailbox_id s.message_id (to_db s) ≡ record s {
      quarantine_active = quarantine_wanted (lookup threat s.facets);
      domain_events = [];
    }
unfolding from_db to_db
from_db-to_db s h = rw (insert_all_self s.facets h, insert_all_self s.facets h)
