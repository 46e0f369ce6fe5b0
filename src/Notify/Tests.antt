-- ===== src/Notify/Tests.antt =====
-- The examples of notification subscriptions.
use volunteer_training.Prelude.{
  ◌≡◌, true, refl, Option, none, List, [], ◌∷◌, add_all, add, contains,
}
use volunteer_training.Prelude.Store.{update_at}
use volunteer_training.Notify.Repository.{
  UserKey, user_key_eq, SubscriptionColumns, columns_of, user_key,
}
use volunteer_training.Notify.Subscription.{
  channel_eq, push, sms, digest_email, immediate, off, priority_escalated, needs_reply_aging,
  NotificationPreference, NotificationSubscription, create, to_db, Operation, updates, authorizes,
  revokes, run,
}
use volunteer_training.Notify.Authorized.{AreCovered, run-AreCovered}

abbrev by_sms : NotificationPreference
by_sms = record {
  event_type = priority_escalated;
  delivery_mode = immediate;
  preferred_channel = sms;
}

abbrev never : NotificationPreference
never = record {
  event_type = needs_reply_aging;
  delivery_mode = off;
  preferred_channel = digest_email;
}

-- The first call throws, since the channel is not authorized.
abbrev grants : List Operation
grants =
    updates "priority_escalated" by_sms
    ∷ authorizes sms
    ∷ updates "priority_escalated" by_sms
    ∷ updates "needs_reply_aging" never
    ∷ []

push_given : contains push (add_all (push ∷ []) []) ≡ true
unfolding contains add_all add
push_given = refl

run-AreCovered_example : AreCovered (run grants (create "t" "u" (push ∷ [])))
run-AreCovered_example = run-AreCovered "t" "u" (push ∷ []) grants push_given refl

abbrev stored_subscription : NotificationSubscription
stored_subscription = run (revokes sms ∷ grants) (create "t" "u" (push ∷ []))

abbrev no_rows : UserKey → Option SubscriptionColumns
no_rows k = none

abbrev one_row : UserKey → Option SubscriptionColumns
one_row =
    update_at (user_key "t" stored_subscription.user_id) (columns_of (to_db stored_subscription))
      no_rows
