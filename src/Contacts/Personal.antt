-- ===== src/Contacts/Personal.antt =====
-- Which senders count as personal.
use volunteer_training.Prelude.{
  ◌≡◌, ℕ, ltb, ◌+◌, ◌*◌, ◌≤◌, refl, ap, ◌∙◌, Bool, true, false, not, ◌&&◌, ◌||◌, if◌then◌else◌,
  arith,
}
use volunteer_training.Prelude.Text.{utf16}
use volunteer_training.Contacts.Classification.{
  personal, automated, unknown, from_signals, personal_score, personal_weight,
  from_display_name_heuristic, total_weight, from_from_address_pattern, is_noreply,
}
use volunteer_training.Contacts.Profile.{
  ContactSignals, SenderProfile, ContactEvent, sender_classified, signal_objects, from_address,
  is_material, same_type, update_classification, push,
}

-- At least two of the three signs of a person.
abbrev pub two_of_three : Bool → Bool → Bool → Bool
two_of_three a b c = (a && b) || (a && c) || (b && c)

pushed_lem :
    (b : Bool) (q : SenderProfile) (e : ContactEvent)
    → (if b then push q e else q).classification ≡ q.classification
pushed_lem true q e = refl
pushed_lem false q e = refl

update_classification-from_signals :
    (p : SenderProfile) (s : ContactSignals)
    → (update_classification p s).classification ≡ from_signals (signal_objects s)
unfolding update_classification
update_classification-from_signals p s =
    let new = from_signals (signal_objects s) in
    pushed_lem (is_material p.classification new && not (same_type new.classification unknown))
      (record p { classification = new }) (sender_classified new.classification new.confidence)

-- Neither the address, of weight two, nor the name, of weight one, closes the gap.
decided_by_three :
    (a c b : Bool) (x y : ℕ)
    → x ≤ 2
    → y ≤ 1
    → ltb 15 (
        2
        * ((if not a then 0 else 4)
            + (x + ((if c then 4 else 0) + ((if b then 4 else 0) + (y + 0))))))
      ≡ two_of_three a c b
decided_by_three a c b x y hx hy = ground arith

address_weight : (f : Bool) → personal_weight (from_address f) ≤ 2
unfolding from_address from_from_address_pattern is_noreply utf16
address_weight true = omega arith
address_weight false = omega arith

name_weight : (d : Bool) → personal_weight (from_display_name_heuristic d) ≤ 1
name_weight true = omega arith
name_weight false = omega arith

from_signals_lem :
    (s : ContactSignals)
    → (from_signals (signal_objects s)).classification ≡ (
        if two_of_three s.automation_header_absent s.contacts_api_match
          s.bidirectional_thread_history
        then personal
        else automated)
unfolding from_signals personal_score total_weight from_from_address_pattern from_address
from_signals_lem s =
    ap (λ b. if b then personal else automated)
      (decided_by_three s.automation_header_absent s.contacts_api_match
        s.bidirectional_thread_history (personal_weight (from_address s.from_address_valid))
        (personal_weight (from_display_name_heuristic s.display_name_personal))
        (address_weight s.from_address_valid) (name_weight s.display_name_personal))

-- A sender counts as personal exactly when at least two of these hold: no automation header, a match
-- in the contacts, an earlier exchange in both directions. The address and the display name never
-- decide, nor does the old classification.
pub update_classification_lem :
    (p : SenderProfile) (s : ContactSignals)
    → (update_classification p s).classification.classification ≡ (
        if two_of_three s.automation_header_absent s.contacts_api_match
          s.bidirectional_thread_history
        then personal
        else automated)
update_classification_lem p s =
    ap (λ c. c.classification) (update_classification-from_signals p s) ∙ from_signals_lem s
