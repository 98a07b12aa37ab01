-- ===== src/Delivery/Jobs/Finish.antt =====
-- About finishJob and what follows its commit in src/deliverer/deliverer-job.service.ts.
use mesyaf_market.Prelude.{
  ◌≡◌, refl, ℕ, Bool, true, false, some, none, List, [], ◌∷◌, ◌&&◌, arith, ◌==◌, is_value, not, All,
}
use mesyaf_market.Database.Schema.{
  Job, Event, EventEntityType, OrderStatus, JobStatus, is_job, is_order,
}
use mesyaf_market.Database.World.{World, Db, ok}
use mesyaf_market.Database.Rows.{
  find_row, find_row_holds, find-update_rows, update_rows, All-update_rows,
}
use mesyaf_market.Database.Prisma.{reference}
use mesyaf_market.Events.{job_completed}
use mesyaf_market.Events.Record.{record_event_lem, new_event, logged}
use mesyaf_market.Delivery.Jobs.{finish_job, job_payload}

-- What holds of the tables when a job is over.
pub record IsFinished (job_id deliverer_id batch_id : ℕ) (db : Db) : Type 0 where
  pub jobs :
      All (λ j. (j.id == job_id && is_job j.status JobStatus.in_progress) ≡ false) db.jobs.rows
  pub batch : All (λ b. b.id ≡ batch_id → b.status ≡ JobStatus.completed) db.batches.rows
  pub free :
      All
        (λ d. d.id ≡ deliverer_id → (d.availability ≡ true) × (d.active_job_id ≡ none))
        db.deliverers.rows
  pub orders :
      All
        (λ o. is_value o.delivery_job_id job_id ≡ true → o.status ≡ OrderStatus.completed)
        db.orders.rows

abbrev pub finish_event : ℕ → World → Event
finish_event job_id w =
    new_event EventEntityType.job job_id job_completed (job_payload job_id JobStatus.completed) w

abbrev finished : ℕ → ℕ → ℕ → World → World
finished job_id deliverer_id batch_id w = record w {
  db = record w.db {
    jobs = record w.db.jobs {
      rows =
          update_rows (λ j. j.id == job_id && is_job j.status JobStatus.in_progress)
            (λ j. record j { status = JobStatus.completed; completed_at = some w.now })
            w.db.jobs.rows;
    };
    batches = record w.db.batches {
      rows =
          update_rows (λ b. b.id == batch_id) (λ b. record b { status = JobStatus.completed })
            w.db.batches.rows;
    };
    deliverers = record w.db.deliverers {
      rows =
          update_rows (λ d. d.id == deliverer_id)
            (λ d. record d { availability = true; active_job_id = none }) w.db.deliverers.rows;
    };
    orders = record w.db.orders {
      rows =
          update_rows
            (λ o.
              is_value o.delivery_job_id job_id && not (is_order o.status OrderStatus.completed))
            (λ o. record o { status = OrderStatus.completed; delivered_at = some w.now })
            w.db.orders.rows;
    };
  };
}

pub finish_job_lem :
    (job_id deliverer_id batch_id : ℕ) (w : World)
    → (finish_job reference job_id deliverer_id batch_id w).0 ≡ ok tt
    → finish_job reference job_id deliverer_id batch_id w
      ≡ (ok tt, logged (finish_event job_id w) (finished job_id deliverer_id batch_id w))
unfolding finish_job
finish_job_lem job_id deliverer_id batch_id w h = ground (
  arith,
  record_event_lem EventEntityType.job job_id job_completed (job_payload job_id JobStatus.completed)
      (finished job_id deliverer_id batch_id w),
)

abbrev pub done_job : Job → ℕ → Job
done_job j now = record j { status = JobStatus.completed; completed_at = some now }

trivial : {R : Type 0} (rs : List R) → All (λ _. Unit {0}) rs
trivial [] = tt
trivial (r ∷ rs) = (tt, trivial rs)

finished-IsFinished :
    (job_id deliverer_id batch_id : ℕ) (w : World)
    → IsFinished job_id deliverer_id batch_id (finished job_id deliverer_id batch_id w).db
finished-IsFinished job_id deliverer_id batch_id w = record {
  jobs =
      All-update_rows (λ _. Unit {0}) _ _ _ (λ r _ h. ground arith) (λ r _ h. h) w.db.jobs.rows
        (trivial w.db.jobs.rows);
  batch =
      All-update_rows (λ _. Unit {0}) _ _ _ (λ r _ h e. refl) (λ r _ h e. ground arith)
        w.db.batches.rows (trivial w.db.batches.rows);
  free =
      All-update_rows (λ _. Unit {0}) _ _ _ (λ r _ h e. (refl, refl))
        (λ r _ h e. absurd (ground arith)) w.db.deliverers.rows (trivial w.db.deliverers.rows);
  orders =
      All-update_rows (λ _. Unit {0}) _ _ _ (λ r _ h e. refl) (λ r _ h e. ground arith)
        w.db.orders.rows (trivial w.db.orders.rows);
}

pub finish_job-IsFinished :
    (job_id deliverer_id batch_id : ℕ) (w : World)
    → (finish_job reference job_id deliverer_id batch_id w).0 ≡ ok tt
    → IsFinished job_id deliverer_id batch_id
        (finish_job reference job_id deliverer_id batch_id w).1.db
finish_job-IsFinished job_id deliverer_id batch_id w h =
    let f = finished-IsFinished job_id deliverer_id batch_id w in
    rw (finish_job_lem job_id deliverer_id batch_id w h)
      (record { jobs = f.jobs; batch = f.batch; free = f.free; orders = f.orders })

-- The job's own row, which was in progress.
pub finish_job-done :
    (job_id deliverer_id batch_id : ℕ) (w : World) (j : Job)
    → (finish_job reference job_id deliverer_id batch_id w).0 ≡ ok tt
    → find_row (λ r. r.id == job_id) w.db.jobs.rows ≡ some j
    → j.status ≡ JobStatus.in_progress
    → find_row
        (λ r. r.id == job_id)
        (finish_job reference job_id deliverer_id batch_id w).1.db.jobs.rows
      ≡ some (done_job j w.now)
finish_job-done job_id deliverer_id batch_id w j h f running =
    let p : Job → Bool = λ r. r.id == job_id in
    rw (finish_job_lem job_id deliverer_id batch_id w h) (
      ground (
        arith,
        find-update_rows p (λ r. r.id == job_id && is_job r.status JobStatus.in_progress)
            (λ r. done_job r w.now) (λ r. refl) w.db.jobs.rows,
        find_row_holds p w.db.jobs.rows j f,
      ))
