-- ===== src/Delivery/Jobs/Start.antt =====
-- About startJob of src/deliverer/deliverer-job.service.ts.
use mesyaf_market.Prelude.{
  ◌≡◌, inl, inr, refl, ℕ, true, Option, some, none, List, [], ◌∷◌, ◌++◌, arith, ◌==◌, is_value,
  Bool, false, ◌≤◌, ◌&&◌, Option-cases, Bool-cases, All, if◌then◌else◌,
}
use mesyaf_market.Database.Schema.{
  is_job, Event, EventEntityType, OrderStatus, JobStatus, Order, Job,
}
use mesyaf_market.Database.World.{World, Error, ok, err, not_found, forbidden, conflict}
use mesyaf_market.Database.Rows.{
  find_row, update_rows, count_rows, find-update_rows, count_rows_pos, update_rows_none,
  count_rows_below, count_rows_unique, find_row_holds, find_row-none,
}
use mesyaf_market.Database.Prisma.{Prisma, Documented, Documented-reference, reference}
use mesyaf_market.Events.{job_started}
use mesyaf_market.Events.Record.{record_event_lem, new_event, logged}
use mesyaf_market.Delivery.Jobs.{start_job, is_startable, same_id, job_payload}

-- Why the deliverer may not start the job of this row: there is none, it is another's, or it is no
-- longer assigned.
abbrev pub refusal : Option Job → ℕ → Option Error
refusal none deliverer_id = some not_found
refusal (some j) deliverer_id =
    if is_value j.deliverer_id deliverer_id
    then (elim j.status [ JobStatus.assigned ↦ none | _ ↦ some conflict ])
    else some forbidden

abbrev pub started : Job → ℕ → Job
started j now = record j { status = JobStatus.in_progress; started_at = some now }

-- The error of a start that claims no row.
abbrev thrown : Option Job → Option ℕ → Error
thrown none deliverer_id = not_found
thrown (some j) deliverer_id = if same_id j.deliverer_id deliverer_id then conflict else forbidden

start_unclaimed :
    (job_id : ℕ) (deliverer_id : Option ℕ) (w : World)
    → count_rows (is_startable job_id deliverer_id) w.db.jobs.rows ≡ 0
    → start_job reference job_id deliverer_id w
      ≡ (err (thrown (find_row (λ j. j.id == job_id) w.db.jobs.rows) deliverer_id), w)
unfolding start_job
start_unclaimed job_id deliverer_id w h = ground (
  arith,
  update_rows_none (is_startable job_id deliverer_id) (λ j. started j w.now) w.db.jobs.rows h,
)

refusal_names :
    (b : Bool) (status : JobStatus) (x : Error)
    → (if b
        then (elim status [ JobStatus.assigned ↦ none | _ ↦ some conflict ])
        else some forbidden)
      ≡ some x
    → ((if b then conflict else forbidden) ≡ x) × ((b && is_job status JobStatus.assigned) ≡ false)
refusal_names true JobStatus.assigned x h = cc
refusal_names true JobStatus.pending x h = (cc, refl)
refusal_names true JobStatus.in_progress x h = (cc, refl)
refusal_names true JobStatus.completed x h = (cc, refl)
refusal_names false status x h = (cc, refl)

refused :
    (job_id deliverer_id : ℕ) (w : World) (x : Error)
    → count_rows (λ j. j.id == job_id) w.db.jobs.rows ≤ 1
    → refusal (find_row (λ j. j.id == job_id) w.db.jobs.rows) deliverer_id ≡ some x
    → start_job reference job_id (some deliverer_id) w ≡ (err x, w)
refused job_id deliverer_id w x one h =
    let p : Job → Bool = λ j. j.id == job_id in
    let g = is_startable job_id (some deliverer_id) in
    let part : (r : Job) → p r ≡ false → g r ≡ false = λ r e. ground arith in
    elim (Option-cases (find_row p w.db.jobs.rows)) [
      | inl f ↦
          let z = count_rows_below p g part w.db.jobs.rows (find_row-none p w.db.jobs.rows f) in
          let h' : some not_found ≡ some x = rw f at h in
          let e : not_found ≡ x = cc in
          rw (start_unclaimed job_id (some deliverer_id) w z, f, e) refl
      | inr (j, f) ↦
          let h' : refusal (some j) deliverer_id ≡ some x = rw f at h in
          let (e, free) = refusal_names (is_value j.deliverer_id deliverer_id) j.status x h' in
          let z =
            count_rows_unique p g part w.db.jobs.rows j f one
              (ground (arith, free, find_row_holds p w.db.jobs.rows j f)) in
          rw (start_unclaimed job_id (some deliverer_id) w z, f, e) refl
    ]

-- The world after a start.
abbrev after_start : ℕ → Option ℕ → World → World
after_start job_id deliverer_id w = record w {
  db = record w.db {
    jobs = record w.db.jobs {
      rows = update_rows (is_startable job_id deliverer_id) (λ j. started j w.now) w.db.jobs.rows;
    };
    orders = record w.db.orders {
      rows =
          update_rows (λ o. is_value o.delivery_job_id job_id)
            (λ o. record o { status = OrderStatus.in_progress }) w.db.orders.rows;
    };
  };
}

abbrev pub start_event : ℕ → World → Event
start_event job_id w =
    new_event EventEntityType.job job_id job_started (job_payload job_id JobStatus.in_progress) w

start_claimed :
    (job_id : ℕ) (deliverer_id : Option ℕ) (w : World)
    → ¬ (count_rows (is_startable job_id deliverer_id) w.db.jobs.rows ≡ 0)
    → start_job reference job_id deliverer_id w
      ≡ (ok tt, logged (start_event job_id w) (after_start job_id deliverer_id w))
unfolding start_job
start_claimed job_id deliverer_id w h = ground (
  arith,
  record_event_lem EventEntityType.job job_id job_started (job_payload job_id JobStatus.in_progress)
      (after_start job_id deliverer_id w),
)

-- A job's orders are all under way.
abbrev pub IsUnderWay : ℕ → Order → Type 0
IsUnderWay job_id o = is_value o.delivery_job_id job_id ≡ true → o.status ≡ OrderStatus.in_progress

All-orders-under-way :
    (job_id : ℕ) (os : List Order)
    → All (IsUnderWay job_id) (
        update_rows
          (λ o. is_value o.delivery_job_id job_id)
          (λ o. record o { status = OrderStatus.in_progress })
          os)
unfolding update_rows
All-orders-under-way job_id [] = tt
All-orders-under-way job_id (o ∷ os) = elim (Bool-cases (is_value o.delivery_job_id job_id)) [
  | inl e ↦ rw e ((λ _. refl), All-orders-under-way job_id os)
  | inr e ↦ rw e ((λ h. cc), All-orders-under-way job_id os)
]

start_done :
    (job_id : ℕ) (deliverer_id : Option ℕ) (w : World) (j : Job)
    → find_row (λ r. r.id == job_id) w.db.jobs.rows ≡ some j
    → is_startable job_id deliverer_id j ≡ true
    → let w' = (start_job reference job_id deliverer_id w).1 in
      ((start_job reference job_id deliverer_id w).0 ≡ ok tt)
      × (find_row (λ r. r.id == job_id) w'.db.jobs.rows ≡ some (started j w.now))
      × All (IsUnderWay job_id) w'.db.orders.rows
      × (w'.db.events.rows ≡ w.db.events.rows ++ start_event job_id w ∷ [])
start_done job_id deliverer_id w j f s =
    let claimed =
      count_rows_pos (λ r. r.id == job_id) (is_startable job_id deliverer_id) w.db.jobs.rows j f
        s in
    let e = start_claimed job_id deliverer_id w claimed in
    (
      rw e refl,
      rw e (
          ground (
            arith,
            find-update_rows (λ r. r.id == job_id) (is_startable job_id deliverer_id)
                (λ r. started r w.now) (λ r. refl) w.db.jobs.rows,
          )),
      rw e (All-orders-under-way job_id w.db.orders.rows),
      rw e refl,
    )

module _ {prisma : Prisma} (d : Documented prisma) where
  -- A start is refused and changes nothing where the deliverer may not start the job: not-found, if
  -- there is no job of the id; forbidden, if it is not the deliverer's, in whatever status it is; and
  -- a conflict, if it is the deliverer's and is not assigned any more. The id is a key of the table.
  pub start_job_refused :
      (job_id deliverer_id : ℕ) (w : World) (x : Error)
      → prisma.count (λ j. j.id == job_id) w.db.jobs ≤ 1
      → refusal (prisma.find_first (λ j. j.id == job_id) w.db.jobs) deliverer_id ≡ some x
      → start_job prisma job_id (some deliverer_id) w ≡ (err x, w)
  start_job_refused = rw (Documented-reference d) refused

  -- The start of an assigned job by its deliverer succeeds: the job is in progress since now, all
  -- its orders are in progress, and the log ends with the event of the start.
  pub start_job_done :
      (job_id : ℕ) (deliverer_id : Option ℕ) (w : World) (j : Job)
      → prisma.find_first (λ r. r.id == job_id) w.db.jobs ≡ some j
      → is_startable job_id deliverer_id j ≡ true
      → let w' = (start_job prisma job_id deliverer_id w).1 in
        ((start_job prisma job_id deliverer_id w).0 ≡ ok tt)
        × (prisma.find_first (λ r. r.id == job_id) w'.db.jobs ≡ some (started j w.now))
        × All (IsUnderWay job_id) w'.db.orders.rows
        × (w'.db.events.rows ≡ w.db.events.rows ++ start_event job_id w ∷ [])
  start_job_done = rw (Documented-reference d) start_done
