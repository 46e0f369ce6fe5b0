-- ===== src/Notify/Authorized.antt =====
-- Which channels are notified immediately.
use volunteer_training.Prelude.{
  ◌≡◌, refl, Bool, true, false, not, ◌&&◌, ◌||◌, Bool-cases, inl, inr, List, [], ◌∷◌, String, All,
  arith, add, contains, contains-add, add_all, insert, string_eq, ◌===◌,
}
use volunteer_training.Prelude.Result.{ok_or}
use volunteer_training.Notify.Subscription.{
  Channel, push, channel_eq, NotificationPreference, is_immediate, NotificationSubscription,
  safe_defaults, create, update_preference, authorize_channel, Operation, updates, authorizes,
  revokes, step, run,
}

-- Whether a preference asks for nothing that is not authorized.
abbrev pub is_covered : List Channel → NotificationPreference → Bool
is_covered cs p = not (is_immediate p) || contains p.preferred_channel cs

-- Every immediate preference names an authorized channel.
abbrev pub AreCovered : NotificationSubscription → Type 0
AreCovered s =
    All (λ e. is_covered (NotificationSubscription.authorized_channels s) (e.1) ≡ true)
      (NotificationSubscription.preferences s)

abbrev pub is_revocation : Operation → Bool
is_revocation (revokes c) = true
is_revocation _ = false

abbrev pub revokes_none : List Operation → Bool
revokes_none [] = true
revokes_none (o ∷ os) = not (is_revocation o) && revokes_none os

inserted :
    (cs : List Channel) (k : String) (p : NotificationPreference)
    (m : List (String × NotificationPreference))
    → is_covered cs p ≡ true
    → All (λ e. is_covered cs (e.1) ≡ true) m
    → All (λ e. is_covered cs (e.1) ≡ true) (insert k p m)
unfolding insert
inserted cs k p [] c h = (c, tt)
inserted cs k p ((j, q) ∷ m) c (a, h) = elim (Bool-cases (j === k)) [
  | inl same ↦ rw same (c, h)
  | inr other ↦ rw other (a, inserted cs k p m c h)
]

widened :
    (cs : List Channel) (c : Channel) (m : List (String × NotificationPreference))
    → All (λ e. is_covered cs (e.1) ≡ true) m
    → All (λ e. is_covered (add c cs) (e.1) ≡ true) m
widened cs c [] h = tt
widened cs c ((j, q) ∷ m) (a, h) =
    (ground (arith, contains-add c q.preferred_channel cs), widened cs c m h)

updated :
    (s : NotificationSubscription) (k : String) (p : NotificationPreference)
    → AreCovered s
    → AreCovered (ok_or s (update_preference s k p))
unfolding update_preference
updated s k p h =
    elim (Bool-cases (is_immediate p && not (contains p.preferred_channel s.authorized_channels))) [
      | inl refused ↦ rw refused h
      | inr accepted ↦
          rw accepted (inserted s.authorized_channels k p s.preferences (ground arith) h)
    ]

step-AreCovered :
    (o : Operation) (s : NotificationSubscription)
    → is_revocation o ≡ false
    → AreCovered s
    → AreCovered (step o s)
unfolding authorize_channel
step-AreCovered (updates k p) s n h = updated s k p h
step-AreCovered (authorizes c) s n h = widened s.authorized_channels c s.preferences h
step-AreCovered (revokes c) s n h = cc

run_from :
    (os : List Operation) (s : NotificationSubscription)
    → revokes_none os ≡ true
    → AreCovered s
    → AreCovered (run os s)
run_from [] s n h = h
run_from (o ∷ os) s n h =
    run_from os (step o s) (ground arith) (step-AreCovered o s (ground arith) h)

created :
    (t u : String) (cs : List Channel)
    → contains push (add_all cs []) ≡ true
    → AreCovered (create t u cs)
unfolding create safe_defaults insert
created t u cs h = (h, (refl, (refl, tt)))

-- A subscription that is created with the push channel authorized, and of which no channel is
-- revoked, asks after any calls for immediate delivery on authorized channels only.
pub run-AreCovered :
    (t u : String) (cs : List Channel) (os : List Operation)
    → contains push (add_all cs []) ≡ true
    → revokes_none os ≡ true
    → AreCovered (run os (create t u cs))
run-AreCovered t u cs os h n = run_from os (create t u cs) n (created t u cs h)
