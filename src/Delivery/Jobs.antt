-- ===== src/Delivery/Jobs.antt =====
-- src/deliverer/deliverer-job.service.ts: a deliverer starts a job, completes its stops, and
-- completes the job. The row lock on the job is a transaction's alone: it writes nothing.
pub mod Start
pub mod Finish
pub mod Last
pub mod Stops
mod Examples
use mesyaf_market.Prelude.{
  ℕ, zero, suc, String, Bool, true, false, Option, none, some, List, ◌&&◌, not, ◌==◌, is_value,
  is_none, if◌then◌else◌,
}
use mathlib.Core.List.{head?}
use mesyaf_market.Database.Schema.{
  OrderStatus, JobStatus, EventEntityType, Payload, Job, Batch, DropOff, DelivererProfile, is_job,
  is_order,
}
use mesyaf_market.Database.World.{
  Exec, pure, throw, throw_if, or_throw, gets, swallow, enqueue, ◌>>=◌, ◌>>◌, not_found, forbidden,
  conflict, bad_request, record_missing, assign_deliverer,
}
use mesyaf_market.Database.Prisma.{
  Prisma, deliverers, orders, drop_offs, jobs, batches, find_first, find_many, count, update,
  update_many,
}
use mesyaf_market.Events.{
  order_completed, job_started, job_completed, status_name, no_keys, record_event,
}
use mesyaf_market.Delivery.Location.{flush_to_db}

-- The texts of `JobStatus` in an event's payload.
abbrev pub job_status_name : JobStatus → String
job_status_name JobStatus.pending = "PENDING"
job_status_name JobStatus.assigned = "ASSIGNED"
job_status_name JobStatus.in_progress = "IN_PROGRESS"
job_status_name JobStatus.completed = "COMPLETED"

abbrev pub job_payload : ℕ → JobStatus → Payload
job_payload job_id s = record no_keys { job_id = some job_id; status = some (job_status_name s) }

abbrev pub order_payload : ℕ → OrderStatus → Payload
order_payload order_id s = record no_keys {
  order_id = some order_id;
  status = some (status_name s);
}

-- A column in a where-clause: Prisma leaves out a filter that is `undefined`.
abbrev pub matches : Option ℕ → Option ℕ → Bool
matches column none = true
matches column (some k) = is_value column k

-- `a === b` where `a` is a nullable column and `b` may be `undefined`
abbrev pub same_id : Option ℕ → Option ℕ → Bool
same_id column none = false
same_id column (some k) = is_value column k

-- The code after a start that matched no row.
abbrev pub start_refused : Option Job → Option ℕ → Exec (Unit {0})
start_refused none deliverer_id = throw not_found
start_refused (some job) deliverer_id =
    if same_id job.deliverer_id deliverer_id then throw conflict else throw forbidden

-- The checks that completing a job or a stop begins with.
abbrev pub check_job : Option Job → ℕ → Exec Job
check_job none deliverer_id = throw not_found
check_job (some job) deliverer_id = do
  throw_if (not (is_value job.deliverer_id deliverer_id)) forbidden
  throw_if (not (is_job job.status JobStatus.in_progress)) bad_request
  pure job

-- Which jobs a start may claim.
abbrev pub is_startable : ℕ → Option ℕ → Job → Bool
is_startable job_id deliverer_id j =
    j.id == job_id && matches j.deliverer_id deliverer_id && is_job j.status JobStatus.assigned

-- A stop of the job that is not completed yet.
abbrev pub is_open_stop : ℕ → DropOff → Bool
is_open_stop job_id s = s.job_id == job_id && not (is_job s.status JobStatus.completed)

-- Batches that were closed and have no deliverer.
abbrev pub is_stuck : Batch → Bool
is_stuck b = is_job b.status JobStatus.in_progress && is_none b.deliverer_id

-- `if (jobStatus) where.status = jobStatus`
abbrev has_status : Option JobStatus → JobStatus → Bool
has_status none s = true
has_status (some t) s = is_job s t

module _ (prisma : Prisma) where
  -- DelivererJobService.startJob
  unfoldable pub start_job : ℕ → Option ℕ → Exec (Unit {0})
  start_job job_id deliverer_id = prisma.transaction (do
    now ← gets (λ w. w.now)
    started ←
        update_many prisma jobs (is_startable job_id deliverer_id)
          (λ j. record j { status = JobStatus.in_progress; started_at = some now })
    job ← find_first prisma jobs (λ j. j.id == job_id)
    if started == 0 then start_refused job deliverer_id else pure tt
    update_many prisma orders (λ o. is_value o.delivery_job_id job_id)
        (λ o. record o { status = OrderStatus.in_progress })
    record_event prisma EventEntityType.job job_id job_started
        (job_payload job_id JobStatus.in_progress)
    pure tt)

  -- DelivererJobService.finishJob
  unfoldable pub finish_job : ℕ → ℕ → ℕ → Exec (Unit {0})
  finish_job job_id deliverer_id batch_id = do
    now ← gets (λ w. w.now)
    done ←
        update_many prisma jobs (λ j. j.id == job_id && is_job j.status JobStatus.in_progress)
          (λ j. record j { status = JobStatus.completed; completed_at = some now })
    throw_if (done == 0) conflict
    update prisma batches (λ b. b.id == batch_id) (λ b. record b { status = JobStatus.completed })
    update prisma deliverers (λ d. d.id == deliverer_id)
        (λ d. record d { availability = true; active_job_id = none })
    update_many prisma orders
        (λ o. is_value o.delivery_job_id job_id && not (is_order o.status OrderStatus.completed))
        (λ o. record o { status = OrderStatus.completed; delivered_at = some now })
    record_event prisma EventEntityType.job job_id job_completed
        (job_payload job_id JobStatus.completed)
    pure tt

  -- The event of an order that this stop has completed.
  unfoldable pub record_completion : ℕ → ℕ → Exec (Unit {0})
  record_completion zero order_id = pure tt
  record_completion (suc zero) order_id =
      record_event prisma EventEntityType.order order_id order_completed
        (order_payload order_id OrderStatus.completed)
      >> pure tt
  record_completion (suc (suc n)) order_id = pure tt

  -- The transaction of completeDropOff, up to the completed order. It returns the job.
  unfoldable pub claim_stop : ℕ → ℕ → ℕ → Exec Job
  claim_stop job_id drop_off_id deliverer_id = do
    now ← gets (λ w. w.now)
    found ← find_first prisma jobs (λ j. j.id == job_id)
    job ← check_job found deliverer_id
    claimed ←
        update_many prisma drop_offs (λ s. s.id == drop_off_id && is_open_stop job_id s)
          (λ s. record s { status = JobStatus.completed; completed_at = some now })
    throw_if (claimed == 0) conflict
    stop ← find_first prisma drop_offs (λ s. s.id == drop_off_id)
    drop_off ← or_throw stop record_missing
    order_done ←
        update_many prisma orders
          (λ o. o.id == drop_off.order_id && not (is_order o.status OrderStatus.completed))
          (λ o. record o { status = OrderStatus.completed; delivered_at = some now })
    record_completion order_done drop_off.order_id
    pure job

  -- The rest of the transaction: the last stop completes the job.
  unfoldable pub finish_if_last : ℕ → ℕ → Job → Exec Bool
  unfolding finish_job
  finish_if_last job_id deliverer_id job = do
    remaining ← count prisma drop_offs (is_open_stop job_id)
    if remaining == 0 then finish_job job_id deliverer_id job.batch_id else pure tt
    pure (remaining == 0)

  -- The transaction of completeDropOff, which returns whether the job is completed.
  unfoldable pub complete_stop : ℕ → ℕ → ℕ → Exec Bool
  complete_stop job_id drop_off_id deliverer_id = do
    job ← claim_stop job_id drop_off_id deliverer_id
    finish_if_last job_id deliverer_id job

  requeue_first : Option Batch → Exec (Unit {0})
  requeue_first none = pure tt
  requeue_first (some b) = enqueue (assign_deliverer b.id)

  -- DelivererJobService.afterJobCompleted
  unfoldable pub after_job_completed : ℕ → Exec (Unit {0})
  unfolding requeue_first
  after_job_completed deliverer_id = do
    swallow (flush_to_db prisma deliverer_id)
    swallow (do
      stuck ← find_many prisma batches is_stuck
      requeue_first (head? (prisma.order_by (λ b. some b.created_at) stuck)))

  -- DelivererJobService.completeDropOff
  unfoldable pub complete_drop_off : ℕ → ℕ → ℕ → Exec Bool
  unfolding complete_stop after_job_completed
  complete_drop_off job_id drop_off_id deliverer_id = do
    job_completed ← prisma.transaction (complete_stop job_id drop_off_id deliverer_id)
    if job_completed then after_job_completed deliverer_id else pure tt
    pure job_completed

  -- The transaction of completeJob.
  unfoldable pub check_and_finish : ℕ → ℕ → Exec (Unit {0})
  check_and_finish job_id deliverer_id = do
    found ← find_first prisma jobs (λ j. j.id == job_id)
    job ← check_job found deliverer_id
    finish_job job_id deliverer_id job.batch_id

  -- DelivererJobService.completeJob
  unfoldable pub complete_job : ℕ → ℕ → Exec (Unit {0})
  unfolding after_job_completed
  complete_job job_id deliverer_id = do
    prisma.transaction (check_and_finish job_id deliverer_id)
    after_job_completed deliverer_id

  -- DelivererJobService.getDelivererByUserId
  unfoldable pub get_deliverer_by_user_id : ℕ → Exec DelivererProfile
  get_deliverer_by_user_id user_id = do
    deliverer ← find_first prisma deliverers (λ d. d.user_id == user_id)
    or_throw deliverer not_found

  -- DelivererJobService.getDelivererJobs
  unfoldable pub get_deliverer_jobs : ℕ → Option JobStatus → Exec (List Job)
  unfolding get_deliverer_by_user_id
  get_deliverer_jobs user_id job_status = do
    deliverer ← get_deliverer_by_user_id user_id
    find_many prisma jobs
        (λ j. is_value j.deliverer_id deliverer.id && has_status job_status j.status)

  -- DelivererJobService.validateLiveTracking
  unfoldable pub validate_live_tracking : ℕ → ℕ → Exec Bool
  validate_live_tracking job_id deliverer_id = do
    job ← find_first prisma jobs (λ j. j.id == job_id)
    pure (elim job [
      | none ↦ false
      | some j ↦ is_value j.deliverer_id deliverer_id && is_job j.status JobStatus.in_progress
    ])
