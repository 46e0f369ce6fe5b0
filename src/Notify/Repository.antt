-- ===== src/Notify/Repository.antt =====
-- src/notification-alerting/infrastructure/repositories/notification-subscription.repository.ts. A
-- throw is `none`.
use volunteer_training.Prelude.{
  ◌≡◌, ◌↔◌, Bool, true, ◌&&◌, arith, Option, none, some, List, [], String, string_eq, Eq, ◌===◌,
}
use volunteer_training.Prelude.Attempt.{◌>>=◌}
use volunteer_training.Prelude.Store.{Store}
use volunteer_training.Notify.Subscription.{
  Channel, NotificationPreference, NotificationSubscription, SubscriptionRow, create, to_db,
  from_db,
}

pub record UserKey : Type 0 where
  pub tenant_id : String
  pub user_id : String

abbrev pub same_user : UserKey → UserKey → Bool
same_user a b = a.tenant_id === b.tenant_id && a.user_id === b.user_id

pub same_user_iff : (a b : UserKey) → (same_user a b ≡ true) ↔ (a ≡ b)
same_user_iff a b =
    ground
      (arith, string_eq.same_iff a.tenant_id b.tenant_id, string_eq.same_iff a.user_id b.user_id)

instance abbrev pub user_key_eq : Eq UserKey
user_key_eq = record { same = same_user; same_iff = same_user_iff }

-- The columns beside those of the key.
pub record SubscriptionColumns : Type 0 where
  pub preferences : Option (List (String × NotificationPreference))
  pub authorized_channels : Option (List Channel)

abbrev pub columns_of : SubscriptionRow → SubscriptionColumns
columns_of r = record { preferences = r.preferences; authorized_channels = r.authorized_channels }

abbrev pub row_of : UserKey → SubscriptionColumns → SubscriptionRow
row_of k c = record {
  tenant_id = k.tenant_id;
  user_id = k.user_id;
  preferences = c.preferences;
  authorized_channels = c.authorized_channels;
}

abbrev pub user_key : String → String → UserKey
user_key tenant user = record { tenant_id = tenant; user_id = user }

abbrev pub subscription_of : UserKey → Option SubscriptionColumns → Option NotificationSubscription
subscription_of k none = none
subscription_of k (some c) = some (from_db (row_of k c))

module _ (table : Store UserKey SubscriptionColumns) where
  open table use {Db, find, write, find_written}

  -- Both branches write the same columns.
  unfoldable pub save : NotificationSubscription → String → Db → Option Db
  save s tenant d = write (user_key tenant s.user_id) (columns_of (to_db s)) d

  unfoldable pub find_by_user_id : String → String → Db → Option NotificationSubscription
  find_by_user_id tenant user d =
      subscription_of (user_key tenant user) (find (user_key tenant user) d)

  abbrev pub created_if :
      String
      → String
      → Db
      → Option NotificationSubscription
      → Option (NotificationSubscription × Db)
  unfolding save
  created_if tenant user d (some existing) = some (existing, d)
  created_if tenant user d none =
      save (create tenant user []) tenant d >>= λ d'. some (create tenant user [], d')

  unfoldable pub find_or_create : String → String → Db → Option (NotificationSubscription × Db)
  unfolding find_by_user_id created_if
  find_or_create tenant user d = created_if tenant user d (find_by_user_id tenant user d)
