-- ===== src/Notify/CoolDown.antt =====
-- The states of an alert and its cool-down.
use volunteer_training.Prelude.{ℕ, ◌+◌, ◌*◌, ◌≡◌, refl, ap, ◌∙◌, List, [], ◌∷◌, String, ltb, arith}
use volunteer_training.Notify.Subscription.{Channel}
use volunteer_training.Notify.Dispatch.{
  AlertPayload, AlertStatus, pending, dispatched, failed, dispatched_from, failed_from,
  AlertDispatch, alert, create, dispatch, mark_failed, is_in_cool_down, to_db, from_db,
}

pub data Call : Type 0 where
  dispatches fails : Call

abbrev pub step : Call → AlertDispatch → AlertDispatch
step dispatches a = dispatch a
step fails a = mark_failed a

abbrev pub run : List Call → AlertDispatch → AlertDispatch
run [] a = a
run (c ∷ cs) a = run cs (step c a)

-- The status that the first call gives.
abbrev pub first_status : List Call → AlertStatus
first_status [] = pending
first_status (dispatches ∷ cs) = dispatched
first_status (fails ∷ cs) = failed

abbrev status_after : List Call → AlertStatus → AlertStatus
status_after [] s = s
status_after (dispatches ∷ cs) s = status_after cs (dispatched_from s)
status_after (fails ∷ cs) s = status_after cs (failed_from s)

run_status :
    (cs : List Call) (a : AlertDispatch) → run cs a ≡ record a { status = status_after cs a.status }
unfolding dispatch mark_failed
run_status [] a = refl
run_status (dispatches ∷ cs) a = run_status cs (dispatch a)
run_status (fails ∷ cs) a = run_status cs (mark_failed a)

status_after_final :
    (cs : List Call) → (status_after cs dispatched ≡ dispatched) × (status_after cs failed ≡ failed)
status_after_final [] = (refl, refl)
status_after_final (dispatches ∷ cs) = status_after_final cs
status_after_final (fails ∷ cs) = status_after_final cs

status_after_first : (cs : List Call) → status_after cs pending ≡ first_status cs
status_after_first [] = refl
status_after_first (dispatches ∷ cs) = (status_after_final cs).0
status_after_first (fails ∷ cs) = (status_after_final cs).1

-- Whatever calls a new alert gets, the first one settles its status. The alert is in its cool-down
-- for the given minutes after its creation; but once stored and loaded, only before its creation.
pub is_in_cool_down-from_db :
    (t u e : String) (p : AlertPayload) (c : Channel) (minutes : ℕ) (id random : String)
    (start later now : ℕ) (cs : List Call)
    → let a = run cs (create t u e p c minutes id start) in
      (a.status ≡ first_status cs)
      × ((is_in_cool_down a now ≡ ltb now (start + minutes * 60000))
          × (is_in_cool_down (from_db (to_db a) random later) now ≡ ltb now start))
unfolding is_in_cool_down from_db to_db create alert
is_in_cool_down-from_db t u e p c minutes id random start later now cs =
    let same = run_status cs (create t u e p c minutes id start) in
    (
      ap (λ a. AlertDispatch.status a) same ∙ status_after_first cs,
      (
        ap (λ a. is_in_cool_down a now) same,
        ap (λ a. is_in_cool_down (from_db (to_db a) random later) now) same
            ∙ ap (ltb now) (omega arith),
      ),
    )
