-- ===== src/Writeback/Idempotence.antt =====
-- Applying facets: what one call does on every branch, and what doing it twice does.
use volunteer_training.Prelude.{
  ℕ, ◌+◌, ◌≡◌, ◌≢◌, ◌⊎◌, inl, inr, none, some, [], ◌∷◌, ◌++◌, arith, lookup, insert, lookup-insert,
  length, length-append,
}
use volunteer_training.Prelude.Json.{Json, json_eq, same_json_iff}
use volunteer_training.Writeback.Facet.{
  FacetType, facet_type_eq, same_type_iff, FacetApplication, applied, with_status, create_facet,
  Platform,
}
use volunteer_training.Writeback.State.{
  MessageWritebackState, DomainEvent, apply_facet, facet_applied_to_platform,
}

-- A facet that is not recorded yet, or is recorded with the very value, is applied once: a second
-- call with the same value changes nothing, whatever its platform and time.
pub apply_facet_twice :
    (s : MessageWritebackState) (t : FacetType) (v : Json) (p q : Platform) (now later : ℕ)
    → (lookup t s.facets ≡ none)
      ⊎ ((f : FacetApplication) × (lookup t s.facets ≡ some f) × (f.desired_value ≡ v))
    → apply_facet (apply_facet s t v p now) t v q later ≡ apply_facet s t v p now
unfolding apply_facet create_facet with_status
apply_facet_twice s t v p q now later (inl h) = ground (
  arith,
  lookup-insert t t (with_status (create_facet t v) applied now) s.facets,
  same_type_iff t t,
  same_json_iff v v,
)
apply_facet_twice s t v p q now later (inr (f, h, e)) = ground (
  arith,
  lookup-insert t t (with_status f applied now) s.facets,
  same_type_iff t t,
  same_json_iff f.desired_value v,
)

-- A facet that is recorded with another value keeps that value: the call marks the old value as
-- applied, and a second call with the new value still reports one more application.
pub apply_facet_of_changed :
    (s : MessageWritebackState) (t : FacetType) (f : FacetApplication) (v : Json) (p : Platform)
    (now : ℕ)
    → lookup t s.facets ≡ some f
    → f.desired_value ≢ v
    → (lookup t (apply_facet s t v p now).facets
        ≡ some (record f { status = applied; last_attempt_at = some now }))
      × (length (apply_facet (apply_facet s t v p now) t v p now).domain_events
          ≡ length s.domain_events + 2)
unfolding apply_facet with_status
apply_facet_of_changed s t f v p now h n = (
  ground (arith, kept, same_json_iff f.desired_value v),
  ground (
    arith,
    kept,
    same_json_iff f.desired_value v,
    length-append s.domain_events (event ∷ []),
    length-append (s.domain_events ++ event ∷ []) (event ∷ []),
  ),
)
  where
    kept :
        lookup t (insert t (with_status f applied now) s.facets) ≡ some (with_status f applied now)
    kept = ground (arith, lookup-insert t t (with_status f applied now) s.facets, same_type_iff t t)

    event : DomainEvent
    event = facet_applied_to_platform s.tenant_id s.mailbox_id s.message_id t p now
