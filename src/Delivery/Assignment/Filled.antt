-- ===== src/Delivery/Assignment/Filled.antt =====
-- About assignDelivererToBatch of src/deliverer/deliverer-assignment.service.ts: what the job of a
-- batch holds.
use mesyaf_market.Prelude.{
  Option, same_id, ◌≡◌, refl, ◌∙◌, ℕ, Bool, none, some, List, ◌==◌, Option-cases, Bool-cases, inl,
  inr, length, map,
}
use mesyaf_market.Database.Schema.{Order, JobStatus, Job}
use mesyaf_market.Database.World.{World, Db, ok}
use mesyaf_market.Database.Rows.{
  find_row, filter_rows, count_rows, find-append, find-update_rows, find_row_holds,
}
use mesyaf_market.Database.Rules.{bind_ok}
use mesyaf_market.Database.Prisma.{Prisma, reference, settle}
use mesyaf_market.Delivery.Assignment.{is_taken, claim_batch, upsert_job, claim_both, is_unclaimed}
use mesyaf_market.Delivery.Assignment.Exclusive.{is_free_one, both_claimed, settled_ok}
use mesyaf_market.Delivery.Assignment.Stops.{
  planned, place_of, of_job, is_left_out, IsFilled, fill-IsFilled,
}

-- The job of the batch, given to the deliverer.
pub record IsGiven (batch_id deliverer_id : ℕ) (os : List Order) (j : Job) (db : Db) : Type 0 where
  found : find_row (λ k. k.batch_id == batch_id) db.jobs.rows ≡ some j
  deliverer : j.deliverer_id ≡ some deliverer_id
  status : j.status ≡ JobStatus.assigned
  total : j.total_orders ≡ some (length os)

abbrev given : ℕ → List Order → ℕ → Job → Job
given deliverer_id os now j = record j {
  deliverer_id = some deliverer_id;
  status = JobStatus.assigned;
  total_orders = some (length os);
  assigned_at = now;
  started_at = none;
  completed_at = none;
}

abbrev first_job : ℕ → ℕ → List Order → ℕ → ℕ → Job
first_job batch_id deliverer_id os now id = record {
  id = id;
  deliverer_id = some deliverer_id;
  batch_id = batch_id;
  status = JobStatus.assigned;
  assigned_at = now;
  started_at = none;
  completed_at = none;
  total_orders = some (length os);
}

-- The id of the batch's job, or of the next one where it has none.
abbrev id_of : Option Job → ℕ → ℕ
id_of none n = n
id_of (some j) n = j.id

abbrev pub job_of : Prisma → ℕ → World → ℕ
job_of prisma batch_id w =
    id_of (prisma.find_first (λ k. k.batch_id == batch_id) w.db.jobs) w.db.jobs.next_id

pub upsert_names_job :
    (batch_id deliverer_id : ℕ) (os : List Order) (w : World)
    → (j : Job) × ((upsert_job reference batch_id deliverer_id os w).0 ≡ ok j)
      × (j.id ≡ job_of reference batch_id w)
unfolding upsert_job
upsert_names_job batch_id deliverer_id os w =
    elim (Option-cases (find_row (λ k. k.batch_id == batch_id) w.db.jobs.rows)) [
      | inl e ↦ (first_job batch_id deliverer_id os w.now w.db.jobs.next_id, rw e refl, rw e refl)
      | inr (k, e) ↦ (given deliverer_id os w.now k, rw e refl, rw e refl)
    ]

pub upsert_job-IsGiven :
    (batch_id deliverer_id : ℕ) (os : List Order) (w : World)
    → (j : Job) × ((upsert_job reference batch_id deliverer_id os w).0 ≡ ok j)
      × IsGiven batch_id deliverer_id os j (upsert_job reference batch_id deliverer_id os w).1.db
unfolding upsert_job
upsert_job-IsGiven batch_id deliverer_id os w =
    let p : Job → Bool = λ k. k.batch_id == batch_id in
    elim (Option-cases (find_row p w.db.jobs.rows)) [
      | inl e ↦
          let j = first_job batch_id deliverer_id os w.now w.db.jobs.next_id in
          (
            j,
            rw e refl,
            record {
              found = rw e (find-append p w.db.jobs.rows j ∙ rw (e, same_id batch_id) refl);
              deliverer = refl;
              status = refl;
              total = refl;
            },
          )
      | inr (k, e) ↦
          let f = given deliverer_id os w.now in
          (
            f k,
            rw e refl,
            record {
              found = rw e (
                  find-update_rows p p f (λ r. refl) w.db.jobs.rows
                  ∙ rw (e, find_row_holds p w.db.jobs.rows k e) refl);
              deliverer = refl;
              status = refl;
              total = refl;
            },
          )
    ]

-- Both claims leave the jobs to the filling.
both-IsFilled :
    (batch_id deliverer_id : ℕ) (os : List Order) (job j : Job) (w : World)
    → (claim_both reference batch_id deliverer_id os job w).0 ≡ ok j
    → let w' = (claim_both reference batch_id deliverer_id os job w).1 in
      (job ≡ j) × IsFilled batch_id deliverer_id os job.id w'.db × (w'.db.jobs ≡ w.db.jobs)
unfolding claim_both
both-IsFilled batch_id deliverer_id os job j w h =
    let (a, f, s) =
      fill-IsFilled batch_id deliverer_id os job (both_claimed batch_id deliverer_id job w) in
    let batches = count_rows (is_unclaimed batch_id) w.db.batches.rows in
    let deliverers = count_rows (is_free_one deliverer_id) w.db.deliverers.rows in
    elim (Bool-cases (batches == 0)) [
      | inl b ↦ let x = rw b at h in cc
      | inr b ↦ elim (Bool-cases (deliverers == 0)) [
        | inl c ↦ let x = rw (b, c) at h in cc
        | inr c ↦ elim (Bool-cases (count_rows (is_taken job.id) w.db.deliverers.rows == 0)) [
          | inl t ↦ let x = rw (b, c, t, a) at h in rw (b, c, t) (cc, f, s)
          | inr t ↦ let x = rw (b, c, t) at h in cc
        ]
      ]
    ]

of_same :
    (batch_id deliverer_id : ℕ) (os : List Order) (k j : Job) (db : Db)
    → k ≡ j
    → IsFilled batch_id deliverer_id os k.id db
    → IsFilled batch_id deliverer_id os j.id db
of_same batch_id deliverer_id os k j db e h = rw e at h

claimed-IsFilled :
    (batch_id deliverer_id : ℕ) (os : List Order) (w : World) (j : Job)
    → (claim_batch reference batch_id deliverer_id os w).0 ≡ ok j
    → let w' = (claim_batch reference batch_id deliverer_id os w).1 in
      IsGiven batch_id deliverer_id os j w'.db × IsFilled batch_id deliverer_id os j.id w'.db
unfolding claim_batch
claimed-IsFilled batch_id deliverer_id os w j h =
    let (job, a, g) = upsert_job-IsGiven batch_id deliverer_id os w in
    let (k, b, r, e) =
      bind_ok (upsert_job reference batch_id deliverer_id os)
        (claim_both reference batch_id deliverer_id os) w j h in
    let (same, f, s) = both-IsFilled batch_id deliverer_id os k j _ r in
    let given : job ≡ j = cc in
    let g' = rw given at g in
    rw e (
      record {
        found = rw s g'.found;
        deliverer = g'.deliverer;
        status = g'.status;
        total = g'.total;
      },
      of_same batch_id deliverer_id os k j _ same f,
    )

pub batch_filled :
    (batch_id deliverer_id : ℕ) (os : List Order) (w : World) (j : Job)
    → (settle w (claim_batch reference batch_id deliverer_id os w)).0 ≡ ok j
    → let db = (settle w (claim_batch reference batch_id deliverer_id os w)).1.db in
      (find_row (λ k. k.batch_id == batch_id) db.jobs.rows ≡ some j)
      × (j.deliverer_id ≡ some deliverer_id)
      × (j.status ≡ JobStatus.assigned)
      × (j.total_orders ≡ some (length os))
      × (map place_of (filter_rows (of_job j.id) db.drop_offs.rows) ≡ planned 0 os)
      × (count_rows (is_left_out batch_id deliverer_id j.id) db.orders.rows ≡ 0)
batch_filled batch_id deliverer_id os w j h =
    let (r, e) = settled_ok w (claim_batch reference batch_id deliverer_id os w) j h in
    let (g, f) = claimed-IsFilled batch_id deliverer_id os w j r in
    rw e (g.found, g.deliverer, g.status, g.total, f.stops, f.waiting)
