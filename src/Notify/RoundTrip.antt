-- ===== src/Notify/RoundTrip.antt =====
-- What the stored form of a subscription keeps.
use volunteer_training.Prelude.{
  ◌≡◌, refl, Bool, true, false, List, [], ◌∷◌, String, HasDistinctKeys, IsDistinct,
  insert-HasDistinctKeys, add-IsDistinct, delete-IsDistinct, add_all-IsDistinct, insert_all_self,
  add_all_self, string_eq, if◌then◌else◌,
}
use volunteer_training.Prelude.Result.{ok, throws, ok_or}
use volunteer_training.Notify.Subscription.{
  Channel, channel_eq, NotificationSubscription, safe_defaults, create, update_preference,
  authorize_channel, revoke_channel, to_db, from_db, Operation, updates, authorizes, revokes, step,
  run,
}

-- No key or channel twice.
abbrev IsWellFormed : NotificationSubscription → Type 0
IsWellFormed s = HasDistinctKeys s.preferences × IsDistinct s.authorized_channels

create-IsWellFormed : (t u : String) (cs : List Channel) → IsWellFormed (create t u cs)
unfolding create safe_defaults
create-IsWellFormed t u cs = (
  insert-HasDistinctKeys _ _ _ (insert-HasDistinctKeys _ _ _ (insert-HasDistinctKeys _ _ [] tt)),
  add_all-IsDistinct cs [] tt,
)

pub either {ℓ} :
    {A : Type ℓ} (P : A → Type ℓ) (b : Bool) (m : String) (s t : A)
    → P s
    → P t
    → P (ok_or s (if b then throws m else ok t))
either P true m s t g h = g
either P false m s t g h = h

step-IsWellFormed :
    (o : Operation) (s : NotificationSubscription) → IsWellFormed s → IsWellFormed (step o s)
unfolding update_preference authorize_channel revoke_channel
step-IsWellFormed (updates t p) s (h, g) =
    either IsWellFormed _ _ s _ (h, g) (insert-HasDistinctKeys t p s.preferences h, g)
step-IsWellFormed (authorizes c) s (h, g) = (h, add-IsDistinct c s.authorized_channels g)
step-IsWellFormed (revokes c) s (h, g) = (h, delete-IsDistinct c s.authorized_channels g)

run-IsWellFormed :
    (os : List Operation) (s : NotificationSubscription) → IsWellFormed s → IsWellFormed (run os s)
run-IsWellFormed [] s h = h
run-IsWellFormed (o ∷ os) s h = run-IsWellFormed os (step o s) (step-IsWellFormed o s h)

reloaded : (s : NotificationSubscription) → IsWellFormed s → from_db (to_db s) ≡ s
unfolding from_db to_db create
reloaded s (h, g) =
    rw
      (
        insert_all_self s.preferences h,
        insert_all_self s.preferences h,
        add_all_self s.authorized_channels g,
      )
      refl

-- Whatever calls a new subscription gets, storing it and loading it gives it back unchanged: no
-- preference that was never set comes back from the defaults.
pub from_db-run :
    (t u : String) (cs : List Channel) (os : List Operation)
    → from_db (to_db (run os (create t u cs))) ≡ run os (create t u cs)
from_db-run t u cs os =
    reloaded (run os (create t u cs)) (run-IsWellFormed os _ (create-IsWellFormed t u cs))
