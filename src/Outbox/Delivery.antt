-- ===== src/Outbox/Delivery.antt =====
-- No event is lost: a row is published only when all of its queues have accepted it.
use volunteer_training.Prelude.{
  ℕ, ◌≡◌, refl, sym, ap, ◌∙◌, Bool, true, false, Option, none, some, List, [], ◌∷◌, String, All,
  if◌then◌else◌, string_eq, ◌===◌,
}
use mathlib.Core.Path.{subst}
use text.Mathlib.TextEquality.{eq_iff}
use volunteer_training.Prelude.Result.{Result, ok, throws}
use volunteer_training.Outbox.Routing.{QueueName, targets_of}
use volunteer_training.Outbox.Relay.{
  OutboxRow, OutboxTable, Broker, Job, map_row, job_of, job_id_of, publish_at, fail_with,
  mark_failed, db_or, queues_or, error_of, first_error, add_all_jobs, published, publish, no_route,
  route, relay_row,
}

abbrev pub or_empty : Option (List QueueName) → List QueueName
or_empty none = []
or_empty (some ns) = ns

module _ (table : OutboxTable) (broker : Broker) where
  open table use {Db, find, update, find_pending, find_updated, pending_stored, pending_distinct}
  open broker use {Queues, add_job, is_accepted, accepted_added, accepted_kept}

  -- Every queue of some queues has accepted the job of an event.
  abbrev pub IsSent : String → Queues → List QueueName → Type 0
  IsSent id q ns = All (λ n. is_accepted n (job_id_of n id) q ≡ true) ns

  abbrev pub IsSentIf : Bool → String → String → Queues → Type 0
  IsSentIf false id event_type q = Unit
  IsSentIf true id event_type q = IsSent id q (or_empty (targets_of event_type))

  abbrev pub IsRowDelivered : Queues → Option OutboxRow → Type 0
  IsRowDelivered q none = Unit
  IsRowDelivered q (some r) = IsSentIf r.published r.id r.event_type q

  -- Of every row of the table that is published, every queue that it is routed to has accepted it.
  abbrev pub IsDelivered : Db → Queues → Type 0
  IsDelivered d q = (k : String) → IsRowDelivered q (find k d)

  abbrev Keeps : Queues → Queues → Type 0
  Keeps q q' = (n : QueueName) (k : String) → is_accepted n k q ≡ true → is_accepted n k q' ≡ true

  IsSent-kept :
      (id : String) (q q' : Queues) (ns : List QueueName)
      → Keeps q q'
      → IsSent id q ns
      → IsSent id q' ns
  IsSent-kept id q q' [] h s = tt
  IsSent-kept id q q' (n ∷ ns) h (a, s) = (h n (job_id_of n id) a, IsSent-kept id q q' ns h s)

  IsSentIf-kept :
      (b : Bool) (id e : String) (q q' : Queues)
      → Keeps q q'
      → IsSentIf b id e q
      → IsSentIf b id e q'
  IsSentIf-kept false id e q q' h s = tt
  IsSentIf-kept true id e q q' h s = IsSent-kept id q q' (or_empty (targets_of e)) h s

  IsRowDelivered-kept :
      (o : Option OutboxRow) (q q' : Queues) → Keeps q q' → IsRowDelivered q o → IsRowDelivered q' o
  IsRowDelivered-kept none q q' h s = tt
  IsRowDelivered-kept (some r) q q' h s = IsSentIf-kept r.published r.id r.event_type q q' h s

  queues_or-Keeps :
      (n : QueueName) (j : Job) (q : Queues) (x : Result Queues)
      → add_job n j q ≡ x
      → Keeps q (queues_or table broker q x)
  queues_or-Keeps n j q (throws message) e m k a = a
  queues_or-Keeps n j q (ok q') e m k a = accepted_kept n m j k q q' e a

  -- The queues only grow.
  add_all_jobs-Keeps :
      (ns : List QueueName) (r : OutboxRow) (q : Queues)
      → Keeps q (add_all_jobs table broker ns r q).0
  unfolding add_all_jobs
  add_all_jobs-Keeps [] r q m k a = a
  add_all_jobs-Keeps (n ∷ ns) r q m k a =
      add_all_jobs-Keeps ns r _ m k (queues_or-Keeps n (job_of n r) q _ refl m k a)

  added_or_error :
      (n : QueueName) (j : Job) (q : Queues) (x : Result Queues) (later : Option String)
      → add_job n j q ≡ x
      → first_error table broker (error_of table broker x) later ≡ none
      → (is_accepted n j.job_id (queues_or table broker q x) ≡ true) × (later ≡ none)
  added_or_error n j q (throws message) later e h = cc
  added_or_error n j q (ok q') later e h = (accepted_added n j q q' e, h)

  -- Without an error, every queue has accepted.
  add_all_jobs_sends :
      (ns : List QueueName) (r : OutboxRow) (q : Queues)
      → (add_all_jobs table broker ns r q).1 ≡ none
      → IsSent r.id (add_all_jobs table broker ns r q).0 ns
  unfolding add_all_jobs
  add_all_jobs_sends [] r q h = tt
  add_all_jobs_sends (n ∷ ns) r q h =
      let (added, rest) = added_or_error n (job_of n r) q _ _ refl h in
      (add_all_jobs-Keeps ns r _ n (job_id_of n r.id) added, add_all_jobs_sends ns r _ rest)

  failed_row :
      (b : Bool) (message : String) (q : Queues) (o : Option OutboxRow)
      → IsRowDelivered q o
      → IsRowDelivered q (if b then map_row (fail_with message) o else o)
  failed_row false message q o s = s
  failed_row true message q none s = tt
  failed_row true message q (some r) s = s

  failed_IsDelivered :
      (id message : String) (d : Db) (q : Queues) (x : Result Db)
      → update id (fail_with message) d ≡ x
      → IsDelivered d q
      → IsDelivered (db_or table broker d x) q
  failed_IsDelivered id message d q (throws m) e h k = h k
  failed_IsDelivered id message d q (ok d') e h k =
      subst (IsRowDelivered q) (sym (find_updated id k (fail_with message) d d' e))
        (failed_row (id === k) message q (find k d) (h k))

  mark_failed-IsDelivered :
      (id message : String) (d : Db) (q : Queues)
      → IsDelivered d q
      → IsDelivered (mark_failed table broker id message d q).db q
  unfolding mark_failed
  mark_failed-IsDelivered id message d q h = failed_IsDelivered id message d q _ refl h

  sent_row :
      (b : Bool) (r : OutboxRow) (now : ℕ) (q : Queues) (ns : List QueueName) (o : Option OutboxRow)
      → targets_of r.event_type ≡ some ns
      → IsSent r.id q ns
      → (b ≡ true → o ≡ some r)
      → IsRowDelivered q o
      → IsRowDelivered q (if b then map_row (publish_at now) o else o)
  sent_row false r now q ns o t sent own s = s
  sent_row true r now q ns o t sent own s =
      subst (λ x. IsRowDelivered q (map_row (publish_at now) x)) (sym (own refl))
        (subst (λ x. IsSent r.id q (or_empty x)) (sym t) sent)

  published-IsDelivered :
      (r : OutboxRow) (now : ℕ) (d : Db) (q : Queues) (ns : List QueueName) (x : Result Db)
      → update r.id (publish_at now) d ≡ x
      → targets_of r.event_type ≡ some ns
      → IsSent r.id q ns
      → find r.id d ≡ some r
      → IsDelivered d q
      → IsDelivered (published table broker r d q x).db (published table broker r d q x).queues
  unfolding mark_failed
  published-IsDelivered r now d q ns (throws m) e t sent own h k =
      mark_failed-IsDelivered r.id m d q h k
  published-IsDelivered r now d q ns (ok d') e t sent own h k =
      subst (IsRowDelivered q) (sym (find_updated r.id k (publish_at now) d d' e)) (
        sent_row (r.id === k) r now q ns (find k d) t sent
          (λ same. ap (λ x. find x d) (sym ((eq_iff r.id k).0 same)) ∙ own) (h k))

  publish-IsDelivered :
      (r : OutboxRow) (now : ℕ) (d : Db) (q : Queues) (ns : List QueueName) (error : Option String)
      → targets_of r.event_type ≡ some ns
      → (error ≡ none → IsSent r.id q ns)
      → find r.id d ≡ some r
      → IsDelivered d q
      → IsDelivered
          (publish table broker r now d q error).db
          (publish table broker r now d q error).queues
  unfolding mark_failed
  publish-IsDelivered r now d q ns (some m) t sent own h = mark_failed-IsDelivered r.id m d q h
  publish-IsDelivered r now d q ns none t sent own h =
      published-IsDelivered r now d q ns _ refl t (sent refl) own h

  route-IsDelivered :
      (r : OutboxRow) (now : ℕ) (d : Db) (q : Queues) (t : Option (List QueueName))
      → targets_of r.event_type ≡ t
      → find r.id d ≡ some r
      → IsDelivered d q
      → IsDelivered (route table broker r now d q t).db (route table broker r now d q t).queues
  unfolding mark_failed
  route-IsDelivered r now d q none t own h =
      mark_failed-IsDelivered r.id (no_route table broker r) d q h
  route-IsDelivered r now d q (some ns) t own h =
      publish-IsDelivered r now d _ ns _ t (add_all_jobs_sends ns r q) own
        (λ k. IsRowDelivered-kept (find k d) q _ (add_all_jobs-Keeps ns r q) (h k))

  pub relay_row-IsDelivered :
      (r : OutboxRow) (now : ℕ) (d : Db) (q : Queues)
      → find r.id d ≡ some r
      → IsDelivered d q
      → IsDelivered (relay_row table broker r now d q).db (relay_row table broker r now d q).queues
  unfolding relay_row
  relay_row-IsDelivered r now d q own h = route-IsDelivered r now d q _ refl own h
