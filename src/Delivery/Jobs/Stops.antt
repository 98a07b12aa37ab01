-- ===== src/Delivery/Jobs/Stops.antt =====
-- About completeDropOff and completeJob of src/deliverer/deliverer-job.service.ts.
use mesyaf_market.Prelude.{
  ◌≡◌, ◌↔◌, refl, ap, ℕ, zero, suc, Bool, true, some, ◌&&◌, arith, ◌==◌, if◌then◌else◌,
}
use mesyaf_market.Database.Schema.{EventEntityType, OrderStatus, JobStatus, Job}
use mesyaf_market.Database.World.{World, Error, ok, err}
use mesyaf_market.Database.Rules.{bind_ok}
use mesyaf_market.Database.Rows.{find_row, update_rows, count-update_rows_self}
use mesyaf_market.Database.Prisma.{Prisma, Documented, Documented-reference, reference}
use mesyaf_market.Events.{order_completed}
use mesyaf_market.Events.Record.{record_event_lem}
use mesyaf_market.Delivery.Jobs.{
  finish_if_last, claim_stop, complete_stop, complete_drop_off, complete_job, check_and_finish,
  after_job_completed, is_open_stop, record_completion, order_payload,
}
use mesyaf_market.Delivery.Jobs.Finish.{IsFinished, done_job}
use mesyaf_market.Delivery.Jobs.Last.{last_stop, after_if-LastStop}

after_ok : (deliverer_id : ℕ) (w : World) → (after_job_completed reference deliverer_id w).0 ≡ ok tt
unfolding after_job_completed
after_ok deliverer_id w = refl

-- A claim returns the job in progress that the caller holds.
record Claimed (job_id deliverer_id : ℕ) (job : Job) (w : World) : Type 0 where
  found : find_row (λ j. j.id == job_id) w.db.jobs.rows ≡ some job
  held : job.deliverer_id ≡ some deliverer_id
  running : job.status ≡ JobStatus.in_progress

claim_stop-Claimed :
    (job_id drop_off_id deliverer_id : ℕ) (w : World) (job : Job)
    → (claim_stop reference job_id drop_off_id deliverer_id w).0 ≡ ok job
    → Claimed job_id deliverer_id job w
unfolding claim_stop
claim_stop-Claimed job_id drop_off_id deliverer_id w job h = record {
  found = ground arith;
  held = ground arith;
  running = ground arith;
}

drop_off_atomic :
    (job_id drop_off_id deliverer_id : ℕ) (w : World) (x : Error)
    → (complete_drop_off reference job_id drop_off_id deliverer_id w).0 ≡ err x
    → (complete_drop_off reference job_id drop_off_id deliverer_id w).1.db ≡ w.db
unfolding complete_drop_off
drop_off_atomic job_id drop_off_id deliverer_id w x h =
    ground
      (arith, after_ok deliverer_id (complete_stop reference job_id drop_off_id deliverer_id w).1)

job_atomic :
    (job_id deliverer_id : ℕ) (w : World) (x : Error)
    → (complete_job reference job_id deliverer_id w).0 ≡ err x
    → (complete_job reference job_id deliverer_id w).1.db ≡ w.db
unfolding complete_job
job_atomic job_id deliverer_id w x h =
    ground (arith, after_ok deliverer_id (check_and_finish reference job_id deliverer_id w).1)

drop_offs-record_completion :
    (n order_id : ℕ) (w : World)
    → (record_completion reference n order_id w).1.db.drop_offs ≡ w.db.drop_offs
unfolding record_completion
drop_offs-record_completion zero order_id w = refl
drop_offs-record_completion (suc zero) order_id w =
    rw
      (record_event_lem EventEntityType.order order_id order_completed
        (order_payload order_id OrderStatus.completed) w)
      refl
drop_offs-record_completion (suc (suc n)) order_id w = refl

drop_offs-claim_stop :
    (job_id drop_off_id deliverer_id : ℕ) (w : World) (job : Job)
    → (claim_stop reference job_id drop_off_id deliverer_id w).0 ≡ ok job
    → (claim_stop reference job_id drop_off_id deliverer_id w).1.db.drop_offs.rows
      ≡ update_rows
          (λ s. s.id == drop_off_id && is_open_stop job_id s)
          (λ s. record s { status = JobStatus.completed; completed_at = some w.now })
          w.db.drop_offs.rows
unfolding claim_stop
drop_offs-claim_stop job_id drop_off_id deliverer_id w job h =
    grind (arith, drop_offs-record_completion)

-- The claim leaves the jobs and the clock.
record_completion-jobs :
    (n order_id : ℕ) (w : World)
    → ((record_completion reference n order_id w).1.db.jobs ≡ w.db.jobs)
      × ((record_completion reference n order_id w).1.now ≡ w.now)
unfolding record_completion
record_completion-jobs zero order_id w = (refl, refl)
record_completion-jobs (suc zero) order_id w =
    rw
      (record_event_lem EventEntityType.order order_id order_completed
        (order_payload order_id OrderStatus.completed) w)
      (refl, refl)
record_completion-jobs (suc (suc n)) order_id w = (refl, refl)

claim_stop-jobs :
    (job_id drop_off_id deliverer_id : ℕ) (w : World) (job : Job)
    → (claim_stop reference job_id drop_off_id deliverer_id w).0 ≡ ok job
    → ((claim_stop reference job_id drop_off_id deliverer_id w).1.db.jobs ≡ w.db.jobs)
      × ((claim_stop reference job_id drop_off_id deliverer_id w).1.now ≡ w.now)
unfolding claim_stop
claim_stop-jobs job_id drop_off_id deliverer_id w job h =
    (grind (arith, record_completion-jobs), grind (arith, record_completion-jobs))

drop_off_ok :
    (job_id drop_off_id deliverer_id : ℕ) (w : World) (b : Bool)
    → (complete_drop_off reference job_id drop_off_id deliverer_id w).0 ≡ ok b
    → let w' = (complete_stop reference job_id drop_off_id deliverer_id w).1 in
      ((complete_stop reference job_id drop_off_id deliverer_id w).0 ≡ ok b)
      × ((complete_drop_off reference job_id drop_off_id deliverer_id w).1
          ≡ (if b then (after_job_completed reference deliverer_id w').1 else w'))
unfolding complete_drop_off
drop_off_ok job_id drop_off_id deliverer_id w b h = (
  ground
      (arith, after_ok deliverer_id (complete_stop reference job_id drop_off_id deliverer_id w).1),
  ground
      (arith, after_ok deliverer_id (complete_stop reference job_id drop_off_id deliverer_id w).1),
)

-- What a completed stop leaves behind.
pub record Completed (prisma : Prisma) (job_id drop_off_id deliverer_id : ℕ) (b : Bool)
    (w w' : World) : Type 0 where
  pub job : Job
  pub found : prisma.find_first (λ j. j.id == job_id) w.db.jobs ≡ some job
  pub held : job.deliverer_id ≡ some deliverer_id
  pub running : job.status ≡ JobStatus.in_progress
  pub stop : prisma.count (λ s. s.id == drop_off_id && is_open_stop job_id s) w'.db.drop_offs ≡ 0
  pub answer : (b ≡ true) ↔ (prisma.count (is_open_stop job_id) w'.db.drop_offs ≡ 0)
  pub over : b ≡ true → IsFinished job_id deliverer_id job.batch_id w'.db
  pub done :
      b ≡ true → prisma.find_first (λ j. j.id == job_id) w'.db.jobs ≡ some (done_job job w.now)

complete_drop_off-Completed :
    (job_id drop_off_id deliverer_id : ℕ) (w : World) (b : Bool)
    → (complete_drop_off reference job_id drop_off_id deliverer_id w).0 ≡ ok b
    → Completed reference job_id drop_off_id deliverer_id b w
        (complete_drop_off reference job_id drop_off_id deliverer_id w).1
complete_drop_off-Completed job_id drop_off_id deliverer_id w b h =
    let (stop, after) = drop_off_ok job_id drop_off_id deliverer_id w b h in
    let (job, claimed, r, e) =
      bind_ok (claim_stop reference job_id drop_off_id deliverer_id)
        (λ j. finish_if_last reference job_id deliverer_id j) w b (unfold complete_stop in stop) in
    let c = claim_stop-Claimed job_id drop_off_id deliverer_id w job claimed in
    let w1 = (claim_stop reference job_id drop_off_id deliverer_id w).1 in
    let (jobs, clock) = claim_stop-jobs job_id drop_off_id deliverer_id w job claimed in
    let l =
      last_stop job_id deliverer_id job w1 b (rw (ap (λ t. t.rows) jobs) c.found) c.running r in
    let w2 = (finish_if_last reference job_id deliverer_id job w1).1 in
    let e' : complete_stop reference job_id drop_off_id deliverer_id w
        ≡ finish_if_last reference job_id deliverer_id job w1 =
      unfold complete_stop in e in
    let f = after_if-LastStop b deliverer_id job_id deliverer_id job w1.now w1.db.drop_offs w2 l in
    rw (after, e')
      (record {
        job = job;
        found = c.found;
        held = c.held;
        running = c.running;
        stop =
            rw (f.stops, drop_offs-claim_stop job_id drop_off_id deliverer_id w job claimed)
              (count-update_rows_self (λ s. s.id == drop_off_id && is_open_stop job_id s)
                (λ s. record s { status = JobStatus.completed; completed_at = some w.now })
                (λ s. ground arith) w.db.drop_offs.rows);
        answer = f.answer;
        over = f.over;
        done = rw clock at f.done;
      })

module _ {prisma : Prisma} (d : Documented prisma) where
  -- A drop-off that fails leaves every table as it was; so a failure after the commit, of Redis or
  -- of the queue, is never answered as a failed drop-off.
  failed_drop_off_changes_nothing :
      (job_id drop_off_id deliverer_id : ℕ) (w : World) (x : Error)
      → (complete_drop_off prisma job_id drop_off_id deliverer_id w).0 ≡ err x
      → (complete_drop_off prisma job_id drop_off_id deliverer_id w).1.db ≡ w.db
  failed_drop_off_changes_nothing = rw (Documented-reference d) drop_off_atomic

  -- A completed drop-off was of a job in progress that the caller held. Afterwards the stop is not
  -- open, the answer says whether no stop of the job is open, and if so the job is over: its row is
  -- completed, at that time, its batch and all its orders are completed, and the deliverer is
  -- available with no active job.
  pub drop_off_completes :
      (job_id drop_off_id deliverer_id : ℕ) (w : World) (b : Bool)
      → (complete_drop_off prisma job_id drop_off_id deliverer_id w).0 ≡ ok b
      → Completed prisma job_id drop_off_id deliverer_id b w
          (complete_drop_off prisma job_id drop_off_id deliverer_id w).1
  drop_off_completes = rw (Documented-reference d) complete_drop_off-Completed

  -- The completion of a whole job that fails leaves every table as it was.
  failed_completion_changes_nothing :
      (job_id deliverer_id : ℕ) (w : World) (x : Error)
      → (complete_job prisma job_id deliverer_id w).0 ≡ err x
      → (complete_job prisma job_id deliverer_id w).1.db ≡ w.db
  failed_completion_changes_nothing = rw (Documented-reference d) job_atomic
