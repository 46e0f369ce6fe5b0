-- ===== src/Contacts/Tests.antt =====
-- The examples of senders' profiles.
use volunteer_training.Prelude.{◌*◌, ◌≡◌, refl, true, false, Option, none, some, List, [], ◌∷◌}
use volunteer_training.Prelude.Store.{Store, function_store, update_at}
use volunteer_training.Contacts.Classification.{personal, from_from_address_pattern}
use volunteer_training.Contacts.Profile.{
  from_address, SenderProfile, ContactSignals, inbound, outbound, new_profile,
  update_classification, record_interaction, promote_to_vip_if_qualified, day,
}
use volunteer_training.Contacts.Personal.{update_classification_lem}
use volunteer_training.Contacts.Frequency.{out_count}
use volunteer_training.Contacts.Announced.{
  Call, classifies, interacts, promotes, designates, reports, run,
}
use volunteer_training.Contacts.Storage.{
  SenderKey, sender_key_eq, ProfileRow, to_row, key_of, save, load_by_sender, kept,
  load_by_sender-save,
}

abbrev known : ContactSignals
known = record {
  automation_header_absent = true;
  from_address_valid = false;
  contacts_api_match = false;
  bidirectional_thread_history = true;
  display_name_personal = true;
}

abbrev someone : SenderProfile
someone = new_profile "t" "b" "a@example.com"

update_classification_lem_example :
    (update_classification someone known).classification.classification ≡ personal
update_classification_lem_example = update_classification_lem someone known

-- Two letters to the sender and one from it.
abbrev letters : List Call
letters =
    classifies known
    ∷ interacts outbound "m1" (10 * day)
    ∷ interacts inbound "m2" (11 * day)
    ∷ interacts outbound "m3" (12 * day)
    ∷ []

abbrev friend : SenderProfile
friend = run letters someone

two_letters : out_count 7 (15 * day) friend.interaction_events ≡ 2
unfolding record_interaction update_classification from_address from_from_address_pattern
two_letters = refl

abbrev history : List Call
history =
    classifies known
    ∷ interacts outbound "m1" (10 * day)
    ∷ promotes 1 7 (11 * day)
    ∷ reports 7 (11 * day)
    ∷ designates true
    ∷ []

abbrev profiles : Store SenderKey ProfileRow
profiles = function_store

abbrev no_profiles : SenderKey → Option ProfileRow
no_profiles k = none

abbrev one_profile : SenderKey → Option ProfileRow
unfolding to_row
one_profile = update_at (key_of friend) (to_row friend) no_profiles

friend_saved : save profiles friend no_profiles ≡ some one_profile
unfolding save to_row
friend_saved = refl

load_by_sender-save_example :
    (load_by_sender profiles (key_of friend) one_profile ≡ some (kept profiles friend))
    × (promote_to_vip_if_qualified (kept profiles friend) 2 7 (15 * day)
        ≡ (kept profiles friend, false))
load_by_sender-save_example =
    load_by_sender-save profiles friend no_profiles one_profile 1 7 (15 * day) friend_saved
