-- ===== src/Delivery/Assignment/Exclusive.antt =====
-- About assignDelivererToBatch of src/deliverer/deliverer-assignment.service.ts: who gets a batch.
use mesyaf_market.Prelude.{
  ◌≡◌, refl, ap, ℕ, suc, Bool, false, not, is_value, ◌≤◌, some, List, [], ◌∷◌, ◌&&◌, ◌==◌, arith,
}
use mesyaf_market.Database.Schema.{Order, Batch, DelivererProfile, Job, JobStatus, is_job}
use mesyaf_market.Database.World.{World, Db, Result, ok, err, conflict}
use mesyaf_market.Database.Rows.{
  count_rows, update_rows, count-update_rows_self, count-update_rows_ge,
}
use mesyaf_market.Database.Rules.{bind_ok}
use mesyaf_market.Database.Prisma.{Prisma, Documented, Documented-reference, reference, settle}
use mesyaf_market.Events.Record.{record_event_lem}
use mesyaf_market.Delivery.Assignment.{
  claim_batch, create_stops, fill_job, upsert_job, claim_both, is_unclaimed, is_free,
}

abbrev pub is_free_one : ℕ → DelivererProfile → Bool
is_free_one deliverer_id d = d.id == deliverer_id && is_free d

-- The tables that the stops of a job are not in.
stops_keep :
    (job_id n : ℕ) (os : List Order) (w : World)
    → ((create_stops reference job_id n os w).0 ≡ ok tt)
      × ((create_stops reference job_id n os w).1.db.batches ≡ w.db.batches)
      × ((create_stops reference job_id n os w).1.db.deliverers ≡ w.db.deliverers)
unfolding create_stops
stops_keep job_id n [] w = (refl, refl, refl)
stops_keep job_id n (o ∷ os) w = stops_keep job_id (suc n) os _

fill_keeps :
    (batch_id deliverer_id : ℕ) (os : List Order) (job : Job) (w : World)
    → ((fill_job reference batch_id deliverer_id os job w).0 ≡ ok job)
      × ((fill_job reference batch_id deliverer_id os job w).1.db.batches ≡ w.db.batches)
      × ((fill_job reference batch_id deliverer_id os job w).1.db.deliverers ≡ w.db.deliverers)
unfolding fill_job
fill_keeps batch_id deliverer_id os job w = grind (arith, stops_keep, record_event_lem)

unclaimed_refused :
    (batch_id deliverer_id : ℕ) (os : List Order) (w : World)
    → count_rows (is_unclaimed batch_id) w.db.batches.rows ≡ 0
    → settle w (claim_batch reference batch_id deliverer_id os w) ≡ (err conflict, w)
unfolding claim_batch upsert_job claim_both
unclaimed_refused batch_id deliverer_id os w h = ground arith

none_unclaimed :
    (batch_id deliverer_id : ℕ) (rows : List Batch)
    → count_rows (is_unclaimed batch_id) (
        update_rows
          (is_unclaimed batch_id)
          (λ b. record b { deliverer_id = some deliverer_id })
          rows)
      ≡ 0
none_unclaimed batch_id deliverer_id rows =
    count-update_rows_self (is_unclaimed batch_id)
      (λ b. record b { deliverer_id = some deliverer_id }) (λ b. ground arith) rows

none_free :
    (deliverer_id job_id : ℕ) (rows : List DelivererProfile)
    → count_rows (is_free_one deliverer_id) (
        update_rows
          (is_free_one deliverer_id)
          (λ d. record d { availability = false; active_job_id = some job_id })
          rows)
      ≡ 0
none_free deliverer_id job_id rows =
    count-update_rows_self (is_free_one deliverer_id)
      (λ d. record d { availability = false; active_job_id = some job_id }) (λ d. ground arith) rows

-- A row of the batch that names the deliverer.
abbrev pub is_given_to : (batch_id deliverer_id : ℕ) → Batch → Bool
is_given_to batch_id deliverer_id b =
    b.id == batch_id
    && is_value b.deliverer_id deliverer_id
    && is_job b.status JobStatus.in_progress

-- The deliverer is busy with the job.
abbrev pub is_busy_with : (deliverer_id job_id : ℕ) → DelivererProfile → Bool
is_busy_with deliverer_id job_id d =
    d.id == deliverer_id && not d.availability && is_value d.active_job_id job_id

batch_given :
    (batch_id deliverer_id : ℕ) (rows : List Batch)
    → count_rows (is_unclaimed batch_id) rows
      ≤ count_rows (is_given_to batch_id deliverer_id) (
          update_rows
            (is_unclaimed batch_id)
            (λ b. record b { deliverer_id = some deliverer_id })
            rows)
batch_given batch_id deliverer_id rows =
    count-update_rows_ge (is_unclaimed batch_id) (is_given_to batch_id deliverer_id)
      (λ b. record b { deliverer_id = some deliverer_id }) (λ b h. ground arith) rows

deliverer_busy :
    (deliverer_id job_id : ℕ) (rows : List DelivererProfile)
    → count_rows (is_free_one deliverer_id) rows
      ≤ count_rows (is_busy_with deliverer_id job_id) (
          update_rows
            (is_free_one deliverer_id)
            (λ d. record d { availability = false; active_job_id = some job_id })
            rows)
deliverer_busy deliverer_id job_id rows =
    count-update_rows_ge (is_free_one deliverer_id) (is_busy_with deliverer_id job_id)
      (λ d. record d { availability = false; active_job_id = some job_id }) (λ d h. ground arith)
      rows

-- The world with both claims made.
abbrev pub both_claimed : ℕ → ℕ → Job → World → World
both_claimed batch_id deliverer_id job w = record w {
  db = record w.db {
    batches = record w.db.batches {
      rows =
          update_rows (is_unclaimed batch_id) (λ b. record b { deliverer_id = some deliverer_id })
            w.db.batches.rows;
    };
    deliverers = record w.db.deliverers {
      rows =
          update_rows (is_free_one deliverer_id)
            (λ d. record d { availability = false; active_job_id = some job.id })
            w.db.deliverers.rows;
    };
  };
}

-- What a claim found, and what it left.
pub record Claims (batch_id deliverer_id : ℕ) (job : Job) (old new : Db) : Type 0 where
  pub was_unclaimed : ¬ (count_rows (is_unclaimed batch_id) old.batches.rows ≡ 0)
  pub was_free : ¬ (count_rows (is_free_one deliverer_id) old.deliverers.rows ≡ 0)
  pub unclaimed : count_rows (is_unclaimed batch_id) new.batches.rows ≡ 0
  pub free : count_rows (is_free_one deliverer_id) new.deliverers.rows ≡ 0
  pub given : ¬ (count_rows (is_given_to batch_id deliverer_id) new.batches.rows ≡ 0)
  pub busy : ¬ (count_rows (is_busy_with deliverer_id job.id) new.deliverers.rows ≡ 0)

claim_both-Claims :
    (batch_id deliverer_id : ℕ) (os : List Order) (job j : Job) (w : World)
    → (claim_both reference batch_id deliverer_id os job w).0 ≡ ok j
    → Claims batch_id deliverer_id job w.db
        (claim_both reference batch_id deliverer_id os job w).1.db
unfolding claim_both
claim_both-Claims batch_id deliverer_id os job j w h =
    let (_, b, d) =
      fill_keeps batch_id deliverer_id os job (both_claimed batch_id deliverer_id job w) in
    record {
      was_unclaimed = λ z. ground arith;
      was_free = λ z. ground arith;
      unclaimed =
          ground
            (arith, ap (λ t. t.rows) b, none_unclaimed batch_id deliverer_id w.db.batches.rows);
      free = ground (arith, ap (λ t. t.rows) d, none_free deliverer_id job.id w.db.deliverers.rows);
      given = λ z.
          ground (arith, ap (λ t. t.rows) b, batch_given batch_id deliverer_id w.db.batches.rows);
      busy = λ z.
          ground
            (arith, ap (λ t. t.rows) d, deliverer_busy deliverer_id job.id w.db.deliverers.rows);
    }

pub upsert_keeps :
    (batch_id deliverer_id : ℕ) (os : List Order) (w : World)
    → ((upsert_job reference batch_id deliverer_id os w).1.db.batches ≡ w.db.batches)
      × ((upsert_job reference batch_id deliverer_id os w).1.db.deliverers ≡ w.db.deliverers)
unfolding upsert_job
upsert_keeps batch_id deliverer_id os w = (ground arith, ground arith)

both_answers :
    (batch_id deliverer_id : ℕ) (os : List Order) (job j : Job) (w : World)
    → (claim_both reference batch_id deliverer_id os job w).0 ≡ ok j
    → job ≡ j
unfolding claim_both
both_answers batch_id deliverer_id os job j w h =
    let (a, _, _) =
      fill_keeps batch_id deliverer_id os job (both_claimed batch_id deliverer_id job w) in
    ground (arith, a)

busy_as :
    (deliverer_id : ℕ) (k j : Job) (rows : List DelivererProfile)
    → k ≡ j
    → ¬ (count_rows (is_busy_with deliverer_id k.id) rows ≡ 0)
    → ¬ (count_rows (is_busy_with deliverer_id j.id) rows ≡ 0)
busy_as deliverer_id k j rows e h = rw e at h

claim_batch-Claims :
    (batch_id deliverer_id : ℕ) (os : List Order) (w : World) (j : Job)
    → (claim_batch reference batch_id deliverer_id os w).0 ≡ ok j
    → Claims batch_id deliverer_id j w.db (claim_batch reference batch_id deliverer_id os w).1.db
unfolding claim_batch
claim_batch-Claims batch_id deliverer_id os w j h =
    let (job, _, r, e) =
      bind_ok (upsert_job reference batch_id deliverer_id os)
        (claim_both reference batch_id deliverer_id os) w j h in
    let (b, d) = upsert_keeps batch_id deliverer_id os w in
    let c =
      claim_both-Claims batch_id deliverer_id os job j
        (upsert_job reference batch_id deliverer_id os w).1 r in
    rw e (record {
      was_unclaimed = rw b at c.was_unclaimed;
      was_free = rw d at c.was_free;
      unclaimed = c.unclaimed;
      free = c.free;
      given = c.given;
      busy = busy_as deliverer_id job j _ (both_answers batch_id deliverer_id os job j _ r) c.busy;
    })

pub settled_ok :
    {A : Type 0} (w : World) (r : Result A × World) (a : A)
    → (settle w r).0 ≡ ok a
    → (r.0 ≡ ok a) × (settle w r ≡ r)
settled_ok w (ok b, w') a h = (h, refl)
settled_ok w (err x, w') a h = cc

pub settled-Claims :
    (batch_id deliverer_id : ℕ) (os : List Order) (w : World) (j : Job)
    → (settle w (claim_batch reference batch_id deliverer_id os w)).0 ≡ ok j
    → Claims batch_id deliverer_id j w.db
        (settle w (claim_batch reference batch_id deliverer_id os w)).1.db
settled-Claims batch_id deliverer_id os w j h =
    let (r, e) = settled_ok w (claim_batch reference batch_id deliverer_id os w) j h in
    let c = claim_batch-Claims batch_id deliverer_id os w j r in
    rw e (record {
      was_unclaimed = c.was_unclaimed;
      was_free = c.was_free;
      unclaimed = c.unclaimed;
      free = c.free;
      given = c.given;
      busy = c.busy;
    })

claim_once :
    (batch_id deliverer_id other_id : ℕ) (os others : List Order) (w : World) (j : Job)
    → (settle w (claim_batch reference batch_id deliverer_id os w)).0 ≡ ok j
    → let w' = (settle w (claim_batch reference batch_id deliverer_id os w)).1 in
      (¬ (count_rows (is_unclaimed batch_id) w.db.batches.rows ≡ 0))
      × (¬ (count_rows (is_free_one deliverer_id) w.db.deliverers.rows ≡ 0))
      × (count_rows (is_free_one deliverer_id) w'.db.deliverers.rows ≡ 0)
      × (settle w' (claim_batch reference batch_id other_id others w') ≡ (err conflict, w'))
claim_once batch_id deliverer_id other_id os others w j h =
    let (r, e) = settled_ok w (claim_batch reference batch_id deliverer_id os w) j h in
    let c = claim_batch-Claims batch_id deliverer_id os w j r in
    rw e (
      c.was_unclaimed,
      c.was_free,
      c.free,
      unclaimed_refused batch_id other_id others _ c.unclaimed,
    )

module _ {prisma : Prisma} (d : Documented prisma) where
  -- A batch is given to one deliverer, and a deliverer one batch: a claim that commits found the
  -- batch unclaimed and the deliverer free, it leaves the deliverer busy, and every further claim
  -- of the batch, for whichever deliverer, conflicts and changes nothing.
  pub batch_claimed_once :
      (batch_id deliverer_id other_id : ℕ) (os others : List Order) (w : World) (j : Job)
      → (prisma.transaction (claim_batch prisma batch_id deliverer_id os) w).0 ≡ ok j
      → let w' = (prisma.transaction (claim_batch prisma batch_id deliverer_id os) w).1 in
        (¬ (prisma.count (is_unclaimed batch_id) w.db.batches ≡ 0))
        × (¬ (prisma.count (is_free_one deliverer_id) w.db.deliverers ≡ 0))
        × (prisma.count (is_free_one deliverer_id) w'.db.deliverers ≡ 0)
        × (prisma.transaction (claim_batch prisma batch_id other_id others) w' ≡ (err conflict, w'))
  batch_claimed_once = rw (Documented-reference d) claim_once
