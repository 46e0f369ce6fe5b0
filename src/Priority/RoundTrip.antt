-- ===== src/Priority/RoundTrip.antt =====
-- What a stored priority reads as.
use volunteer_training.Prelude.{ℕ, ◌≡◌, refl, ap, true, false, String, List, [], ◌∷◌, arith}
use volunteer_training.Prelude.Int.{ℤ, max_ℤ, min_ℤ}
use volunteer_training.Prelude.Result.{ok}
use volunteer_training.Priority.Score.{
  ScoreComponent, create_component, component_from_json, is_out_of_range, Weighing,
}
use volunteer_training.Priority.Message.{
  MessagePriority, clamped, create_priority, pending, to_json, from_json, components_from_json,
}
use volunteer_training.Priority.Bounds.{IsSound, all_in_range, in_range, Call, run, run-IsSound}

clamped-same : (z : ℤ) → in_range z ≡ true → clamped z ≡ z
unfolding max_ℤ min_ℤ
clamped-same z h = ground arith

components_from_json-same :
    (cs : List ScoreComponent) → all_in_range cs ≡ true → components_from_json cs ≡ ok cs
unfolding components_from_json component_from_json create_component
components_from_json-same [] h = refl
components_from_json-same (c ∷ cs) h =
    let here : is_out_of_range c.contribution ≡ false = ground (arith, h) in
    let rest = components_from_json-same cs (ground (arith, h)) in rw (here, rest) refl

from_json-to_json : (p : MessagePriority) → IsSound p → from_json (to_json p) ≡ ok p
unfolding from_json to_json create_priority
from_json-to_json p h =
    rw (components_from_json-same p.components h.1)
      (ap (λ z. ok (record p { score = z })) (clamped-same p.score h.0))

module _ {W : Type 0} ⦃w : Weighing W⦄ where
  -- Whatever calls a message's priority has had since it was pending, its stored form reads as it is.
  pub from_json-run :
      (cs : List (Call W)) (tenant message : String) (created now : ℕ)
      → (let p = run cs (pending tenant message created now) in from_json (to_json p) ≡ ok p)
  from_json-run cs tenant message created now =
      from_json-to_json (run cs (pending tenant message created now))
        (run-IsSound cs tenant message created now)
