-- ===== src/Contacts/Announced.antt =====
-- What the events of a profile tell, over any history of calls.
use volunteer_training.Prelude.{ℕ, ◌≡◌, Bool, true, false, not, ◌&&◌, List, [], ◌∷◌, String}
use volunteer_training.Contacts.Classification.{ContactClassificationType, unknown}
use volunteer_training.Contacts.Profile.{
  SenderProfile, ContactSignals, ContactEvent, VipSource, manual, auto_promoted,
  contact_promoted_to_vip, sender_classified, interaction_frequency_updated,
  promote_to_vip_if_qualified, set_manual_vip_designation, update_classification,
  record_interaction, update_interaction_frequency, Direction,
}

pub data Call : Type 0 where
  classifies : ContactSignals → Call
  interacts : Direction → String → ℕ → Call
  promotes : ℕ → ℕ → ℕ → Call
  designates : Bool → Call
  reports : ℕ → ℕ → Call

abbrev pub step : Call → SenderProfile → SenderProfile
step (classifies s) p = update_classification p s
step (interacts d m t) p = record_interaction p d m t
step (promotes threshold days now) p = (promote_to_vip_if_qualified p threshold days now).0
step (designates b) p = set_manual_vip_designation p b
step (reports days now) p = update_interaction_frequency p days now

abbrev pub run : List Call → SenderProfile → SenderProfile
run [] p = p
run (c ∷ cs) p = run cs (step c p)

-- What a reader of the events knows: the class last told, and whether there was a promotion and
-- whether the last one was automatic.
pub record Reader : Type 0 where
  pub class_told : ContactClassificationType
  pub vip_told : Bool
  pub auto_told : Bool

abbrev pub is_auto : VipSource → Bool
is_auto auto_promoted = true
is_auto manual = false

abbrev pub told : ContactEvent → Reader → Reader
told (sender_classified c q) r = record r { class_told = c }
told (contact_promoted_to_vip s) r = record r { vip_told = true; auto_told = is_auto s }
told (interaction_frequency_updated b t w) r = r

abbrev pub read : List ContactEvent → Reader → Reader
read [] r = r
read (e ∷ es) r = read es (told e r)

abbrev pub knows_nothing : Reader
knows_nothing = record { class_told = unknown; vip_told = false; auto_told = false }

-- What the reader knows agrees with the profile.
abbrev Agrees : SenderProfile → Reader → Type 0
Agrees p r =
    (r.class_told ≡ p.classification.classification)
    × ((p.is_vip && not r.vip_told) ≡ false)
    × ((p.vip_auto_promoted && not (p.is_vip && r.auto_told)) ≡ false)

abbrev pub IsAnnounced : SenderProfile → Type 0
IsAnnounced p = Agrees p (read p.domain_events knows_nothing)
