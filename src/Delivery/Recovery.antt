-- ===== src/Delivery/Recovery.antt =====
-- src/common/decorators/recovery/deliverer-recovery.service.ts: the sweep of every minute over
-- deliverers who went away with a job, and over batches that wait for a deliverer.
pub mod Sweep
pub mod Requeue
mod Examples
use mesyaf_market.Prelude.{
  ℕ, String, ◌+◌, Bool, true, false, Option, none, some, List, [], map, ◌&&◌, ◌==◌, is_value,
  is_some, ltb, if◌then◌else◌, str_eq, take,
}
use mesyaf_market.Database.Schema.{
  OrderStatus, JobStatus, EventEntityType, Job, Batch, DelivererProfile, Order, User, Payload,
  is_job, is_entity,
}
use mesyaf_market.Database.World.{
  Db, Exec, pure, gets, swallow, emit, enqueue, for_each, ◌>>=◌, ◌>>◌, delivery_issue,
  assign_deliverer,
}
use mesyaf_market.Database.Prisma.{
  Prisma, deliverers, orders, jobs, batches, events, find_first, find_many, count, update,
  update_many,
}
use mesyaf_market.Events.{
  job_recovered, job_escalated, order_delivery_issue, status_name, no_keys, record_event,
}
use mesyaf_market.Delivery.Geo.{FloatOps}
use mesyaf_market.Delivery.Assignment.{is_free, assign_deliverer_to_batch}
use mesyaf_market.Delivery.Jobs.{is_stuck}

-- DELIVERER_GRACE_MS
abbrev pub deliverer_grace_ms : ℕ
deliverer_grace_ms = 120000

-- STUCK_BATCH_MIN_AGE_MS
abbrev pub stuck_batch_min_age_ms : ℕ
stuck_batch_min_age_ms = 60000

-- A deliverer as `checkStaleDeliverers` reads it, with the user's `lastSeenAt` and the active job.
pub record Stale : Type 0 where
  pub deliverer : DelivererProfile
  pub last_seen_at : Option ℕ
  pub active_job : Option Job
  pub job_orders : List Order

abbrev pub last_seen : Option User → Option ℕ
last_seen none = none
last_seen (some u) = u.last_seen_at

-- `lastSeenAt: { lt: new Date(Date.now() - grace) }`
abbrev pub is_gone : Option ℕ → ℕ → Bool
is_gone none now = false
is_gone (some t) now = ltb (t + deliverer_grace_ms) now

abbrev reason : String → Payload
reason text = record no_keys { reason = some text }

abbrev issue : Order → Job → Payload
issue o job = record {
  order_id = some o.id;
  job_id = some job.id;
  status = none;
  reason = some "DELIVERER_OFFLINE_DURING_DELIVERY";
  current_status = some (status_name o.status);
}

module _ (prisma : Prisma) where
  abbrev user_of : Db → DelivererProfile → Option User
  user_of db d = prisma.find_first (λ u. u.id == d.user_id) db.users

  abbrev job_of : Db → Option ℕ → Option Job
  job_of db none = none
  job_of db (some id) = prisma.find_first (λ j. j.id == id) db.jobs

  abbrev orders_of : Db → Option ℕ → List Order
  orders_of db none = []
  orders_of db (some id) = prisma.find_many (λ o. is_value o.delivery_job_id id) db.orders

  -- The rows that the query of checkStaleDeliverers returns, with what it includes.
  unfoldable pub snapshot : Db → DelivererProfile → Stale
  snapshot db d = record {
    deliverer = d;
    last_seen_at = last_seen (user_of db d);
    active_job = job_of db d.active_job_id;
    job_orders = orders_of db d.active_job_id;
  }

  unfoldable pub find_stale : Exec (List Stale)
  unfolding snapshot
  find_stale = do
    now ← gets (λ w. w.now)
    db ← gets (λ w. w.db)
    found ←
        find_many prisma deliverers
          (λ d. is_some d.active_job_id && is_gone (last_seen (user_of db d)) now)
    pure (map (snapshot db) found)

  -- The transaction of recoverUnstartedJob.
  unfoldable pub release_job : ℕ → Job → Exec (Unit {0})
  release_job deliverer_id job = do
    update prisma deliverers (λ d. d.id == deliverer_id)
        (λ d. record d { active_job_id = none; availability = true })
    update prisma jobs (λ j. j.id == job.id && is_job j.status JobStatus.assigned)
        (λ j. record j { status = JobStatus.pending; deliverer_id = none })
    update prisma batches (λ b. b.id == job.batch_id)
        (λ b. record b { deliverer_id = none; status = JobStatus.in_progress })
    update_many prisma orders (λ o. is_value o.delivery_job_id job.id)
        (λ o. record o {
          status = OrderStatus.waiting_for_deliverer;
          delivery_job_id = none;
          deliverer_id = none;
        })
    pure tt

  -- DelivererRecoveryService.recoverUnstartedJob
  unfoldable pub recover_unstarted_job : FloatOps → ℕ → Job → Exec (Unit {0})
  unfolding release_job
  recover_unstarted_job float deliverer_id job = do
    prisma.transaction (release_job deliverer_id job)
    record_event prisma EventEntityType.job job.id job_recovered
        (reason "DELIVERER_TIMEOUT_BEFORE_START")
    swallow (assign_deliverer_to_batch prisma float job.batch_id)

  -- An escalation of the job since the deliverer was last seen.
  unfoldable pub is_escalated : ℕ → Option ℕ → Exec Bool
  is_escalated job_id none = pure false
  is_escalated job_id (some last_seen_at) = do
    event ← find_first prisma events (λ e.
        is_entity e.entity_type EventEntityType.job
        && e.entity_id == job_id
        && str_eq e.event_type job_escalated
        && ltb last_seen_at e.created_at)
    pure (is_some event)

  report_issue : Job → Order → Exec (Unit {0})
  report_issue job o = do
    record_event prisma EventEntityType.order o.id order_delivery_issue (issue o job)
    emit (delivery_issue o.customer_id job.id o.id)

  -- DelivererRecoveryService.escalateStartedJob
  unfoldable pub escalate_started_job : Option ℕ → Job → List Order → Exec (Unit {0})
  unfolding is_escalated report_issue
  escalate_started_job last_seen_at job job_orders = do
    done ← is_escalated job.id last_seen_at
    if done then pure tt else do
      record_event prisma EventEntityType.job job.id job_escalated
          (reason "DELIVERER_OFFLINE_DURING_DELIVERY")
      for_each (report_issue job) job_orders

  handle_job : FloatOps → Stale → Job → Exec (Unit {0})
  unfolding recover_unstarted_job escalate_started_job
  handle_job float s job = elim job.status [
    | JobStatus.assigned ↦ recover_unstarted_job float s.deliverer.id job
    | JobStatus.in_progress ↦ escalate_started_job s.last_seen_at job s.job_orders
    | _ ↦ pure tt
  ]

  -- DelivererRecoveryService.handleDeliverer
  unfoldable pub handle_deliverer : FloatOps → Stale → Exec (Unit {0})
  unfolding handle_job
  handle_deliverer float s = elim s.active_job [
    | none ↦ pure tt
    | some job ↦ handle_job float s job
  ]

  -- DelivererRecoveryService.checkStaleDeliverers
  unfoldable pub check_stale_deliverers : FloatOps → Exec (Unit {0})
  unfolding find_stale handle_deliverer
  check_stale_deliverers float = do
    stale ← find_stale
    for_each (λ s. swallow (handle_deliverer float s)) stale

  requeue_up_to : ℕ → List Batch → Exec (Unit {0})
  requeue_up_to free stuck = for_each (λ b. enqueue (assign_deliverer b.id)) (take free stuck)

  -- DelivererRecoveryService.requeueStuckBatches
  unfoldable pub requeue_stuck_batches : Exec (Unit {0})
  unfolding requeue_up_to
  requeue_stuck_batches = do
    now ← gets (λ w. w.now)
    found ←
        find_many prisma batches
          (λ b. is_stuck b && ltb (b.created_at + stuck_batch_min_age_ms) now)
    let stuck = prisma.order_by (λ b. some b.created_at) found
    free ← count prisma deliverers is_free
    requeue_up_to free stuck

  -- DelivererRecoveryService.checkDeliverers
  unfoldable pub check_deliverers : FloatOps → Exec (Unit {0})
  unfolding check_stale_deliverers requeue_stuck_batches
  check_deliverers float = do swallow (check_stale_deliverers float); swallow requeue_stuck_batches
