-- ===== src/Contacts/Storage.antt =====
-- src/contact-graph/infrastructure/repositories/sender-profile.repository.ts: save and loadBySender.
use volunteer_training.Prelude.{
  ℕ, suc, ◌≡◌, ◌↔◌, refl, ap, ◌∙◌, Bool, true, false, ◌&&◌, arith, Option, none, some, [], String,
  string_eq, Eq, ◌===◌,
}
use volunteer_training.Prelude.Store.{Store}
use volunteer_training.Contacts.Classification.{ContactClassification}
use volunteer_training.Contacts.Profile.{SenderProfile, new_profile, promote_to_vip_if_qualified}
use volunteer_training.Contacts.Vip.{qualifies, promote_to_vip_if_qualified_lem}

pub record SenderKey : Type 0 where
  pub tenant_id : String
  pub mailbox_id : String
  pub sender_address : String

abbrev pub same_sender : SenderKey → SenderKey → Bool
same_sender a b =
    a.tenant_id === b.tenant_id
    && a.mailbox_id === b.mailbox_id
    && a.sender_address === b.sender_address

pub same_sender_iff : (a b : SenderKey) → (same_sender a b ≡ true) ↔ (a ≡ b)
same_sender_iff a b = ground (
  arith,
  string_eq.same_iff a.tenant_id b.tenant_id,
  string_eq.same_iff a.mailbox_id b.mailbox_id,
  string_eq.same_iff a.sender_address b.sender_address,
)

instance abbrev pub sender_key_eq : Eq SenderKey
sender_key_eq = record { same = same_sender; same_iff = same_sender_iff }

-- The columns that are read back; a classification is stored as its three fields.
pub record ProfileRow : Type 0 where
  pub classification : Option ContactClassification
  pub is_vip : Bool
  pub vip_auto_promoted : Bool

unfoldable pub to_row : SenderProfile → ProfileRow
to_row p = record {
  classification = some p.classification;
  is_vip = p.is_vip;
  vip_auto_promoted = p.vip_auto_promoted;
}

abbrev pub classified : Option ContactClassification → SenderProfile → SenderProfile
classified none p = p
classified (some c) p = record p { classification = c }

unfoldable pub profile_of_row : SenderKey → ProfileRow → SenderProfile
profile_of_row k row =
    classified row.classification (record (new_profile k.tenant_id k.mailbox_id k.sender_address) {
      is_vip = row.is_vip;
      vip_auto_promoted = row.vip_auto_promoted;
    })

abbrev pub key_of : SenderProfile → SenderKey
key_of p = record {
  tenant_id = p.tenant_id;
  mailbox_id = p.mailbox_id;
  sender_address = p.sender_address;
}

never_promoted :
    (p : SenderProfile)
    → p.interaction_events ≡ []
    → (threshold days now : ℕ) → promote_to_vip_if_qualified p (suc threshold) days now ≡ (p, false)
never_promoted p none_left threshold days now =
    let never : qualifies p (suc threshold) days now ≡ false = rw none_left (ground arith) in
    promote_to_vip_if_qualified_lem p (suc threshold) days now ∙ rw never refl

module _ (table : Store SenderKey ProfileRow) where
  open table use {Db, find, write, find_written}

  -- Both branches of the upsert write the same columns; `none` is a throw.
  unfoldable pub save : SenderProfile → Db → Option Db
  unfolding to_row
  save p d = write (key_of p) (to_row p) d

  abbrev pub loaded : SenderKey → Option ProfileRow → Option SenderProfile
  unfolding profile_of_row
  loaded k none = none
  loaded k (some row) = some (profile_of_row k row)

  unfoldable pub load_by_sender : SenderKey → Db → Option SenderProfile
  load_by_sender k d = loaded k (find k d)

  -- What comes back of a profile.
  abbrev pub kept : SenderProfile → SenderProfile
  kept p = record p { interaction_events = []; domain_events = [] }

  -- A saved profile comes back with its class and its VIP flags but without its interactions, so that
  -- no threshold above zero ever promotes the loaded profile, however often the sender was written to.
  pub load_by_sender-save :
      (p : SenderProfile) (d d' : Db) (threshold days now : ℕ)
      → save p d ≡ some d'
      → (load_by_sender (key_of p) d' ≡ some (kept p))
        × (promote_to_vip_if_qualified (kept p) (suc threshold) days now ≡ (kept p, false))
  unfolding save load_by_sender to_row profile_of_row
  load_by_sender-save p d d' threshold days now h =
      let k = key_of p in
      let stored : find k d' ≡ some (to_row p) =
        find_written k k (to_row p) d d' h ∙ rw ((same_sender_iff k k).1 refl) refl in
      (ap (loaded k) stored, never_promoted (kept p) refl threshold days now)

  -- Loading does not mix up senders: a save changes what is loaded for its own key only.
  pub load_by_sender-save_other :
      (p : SenderProfile) (k : SenderKey) (d d' : Db)
      → save p d ≡ some d'
      → same_sender (key_of p) k ≡ false
      → load_by_sender k d' ≡ load_by_sender k d
  unfolding save load_by_sender to_row
  load_by_sender-save_other p k d d' h other =
      ap (loaded k) (find_written (key_of p) k (to_row p) d d' h ∙ rw other refl)
