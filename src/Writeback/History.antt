-- ===== src/Writeback/History.antt =====
-- The calls on a write-back state as data, and what lists of them do to the counters.
use volunteer_training.Prelude.{
  ℕ, Bool-cases, inl, inr, ◌+◌, ◌≡◌, refl, Option, none, some, List, [], ◌∷◌, lookup, if◌then◌else◌,
  ◌===◌, HasDistinctKeys, insert-HasDistinctKeys,
}
use volunteer_training.Prelude.Json.{Json, json_eq}
use volunteer_training.Writeback.Facet.{FacetType, facet_type_eq, FacetApplication, Platform}
use volunteer_training.Writeback.Failure.{WritebackFailureReason}
use volunteer_training.Writeback.State.{
  MessageWritebackState, apply_facet, record_facet_failure, detect_divergence, already_applied,
}

pub data Operation : Type 0 where
  apply : FacetType → Json → Platform → ℕ → Operation
  fail : FacetType → Option WritebackFailureReason → ℕ → Operation
  observe : FacetType → Json → ℕ → Operation

unfoldable pub step : MessageWritebackState → Operation → MessageWritebackState
step s (apply t v p now) = apply_facet s t v p now
step s (fail t reason now) = record_facet_failure s t reason now
step s (observe t v now) = detect_divergence s t v now

unfoldable pub run : MessageWritebackState → List Operation → MessageWritebackState
run s [] = s
run s (o ∷ os) = run (step s o) os

abbrev pub retries : Option FacetApplication → ℕ
retries none = 0
retries (some f) = f.retry_count

-- How often a list of calls reports a failure of one facet.
abbrev pub failures : FacetType → List Operation → ℕ
failures t [] = 0
failures t (fail u reason now ∷ os) = (if u === t then 1 else 0) + failures t os
failures t (_ ∷ os) = failures t os

observed :
    (s : MessageWritebackState) (t : FacetType) (v : Json) (now : ℕ)
    → HasDistinctKeys s.facets
    → (o : Option FacetApplication) → lookup t s.facets ≡ o
    → HasDistinctKeys (detect_divergence s t v now).facets
unfolding detect_divergence
observed s t v now h none e = rw (e, detect_divergence) h
observed s t v now h (some f) e = elim (Bool-cases (f.last_known_platform_state === v)) [
  | inl old ↦ rw (e, old, detect_divergence) h
  | inr new ↦ rw (e, new, detect_divergence) (insert-HasDistinctKeys t _ s.facets h)
]

step-HasDistinctKeys :
    (s : MessageWritebackState) (o : Operation)
    → HasDistinctKeys s.facets
    → HasDistinctKeys (step s o).facets
unfolding step apply_facet record_facet_failure detect_divergence
step-HasDistinctKeys s (apply t v p now) h =
    elim (Bool-cases (already_applied v (lookup t s.facets))) [
      | inl old ↦ rw old h
      | inr new ↦ rw new (insert-HasDistinctKeys t _ s.facets h)
    ]
step-HasDistinctKeys s (fail t reason now) h = insert-HasDistinctKeys t _ s.facets h
step-HasDistinctKeys s (observe t v now) h = observed s t v now h (lookup t s.facets) refl

-- Whatever is called, the stored facets stay a map: no facet type has two entries.
pub run-HasDistinctKeys :
    (s : MessageWritebackState) (os : List Operation)
    → HasDistinctKeys s.facets
    → HasDistinctKeys (run s os).facets
unfolding run
run-HasDistinctKeys s [] h = h
run-HasDistinctKeys s (o ∷ os) h = run-HasDistinctKeys (step s o) os (step-HasDistinctKeys s o h)
