-- ===== src/Delivery/Assignment/Stops.antt =====
-- About assignDelivererToBatch of src/deliverer/deliverer-assignment.service.ts: the stops of a job
-- and the orders that it carries.
use mesyaf_market.Prelude.{
  ◌≡◌, refl, ◌∙◌, sym, ℕ, suc, Bool, none, some, List, [], ◌∷◌, ◌++◌, ◌&&◌, not, ◌==◌, is_value,
  map, map-append-last, append-nil, same_id, arith,
}
use mesyaf_market.Database.Schema.{Order, OrderStatus, JobStatus, Job, DropOff, is_order}
use mesyaf_market.Database.World.{World, Db, ok}
use mesyaf_market.Database.Rows.{
  filter_rows, drop_rows, count_rows, filter-drop_rows, filter-append, update_rows,
}
use mesyaf_market.Database.Prisma.{reference}
use mesyaf_market.Events.Record.{record_event_lem}
use mesyaf_market.Delivery.Assignment.{create_stops, fill_job}

-- The stops that the orders ask for, with their places.
abbrev pub planned : ℕ → List Order → List (ℕ × ℕ)
planned n [] = []
planned n (o ∷ os) = (o.id, n) ∷ planned (suc n) os

abbrev pub place_of : DropOff → ℕ × ℕ
place_of s = (s.order_id, s.sequence)

abbrev stop_for : ℕ → ℕ → Order → ℕ → DropOff
stop_for job_id index o id = record {
  id = id;
  job_id = job_id;
  order_id = o.id;
  sequence = index;
  status = JobStatus.pending;
  dropoff_lat = o.customer_lat;
  dropoff_lng = o.customer_lng;
  completed_at = none;
}

abbrev pub of_job : ℕ → DropOff → Bool
of_job job_id s = s.job_id == job_id

-- An order of the batch that does not wait for the deliverer with the job.
abbrev pub is_left_out : (batch_id deliverer_id job_id : ℕ) → Order → Bool
is_left_out batch_id deliverer_id job_id o =
    is_value o.delivery_batch_id batch_id
    && not (
        is_order o.status OrderStatus.waiting_for_deliverer
        && is_value o.delivery_job_id job_id
        && is_value o.deliverer_id deliverer_id)

-- The stops are added to those of the job, in order, and the other tables stay.
stops_added :
    (job_id n : ℕ) (os : List Order) (w : World)
    → let w' = (create_stops reference job_id n os w).1 in
      ((create_stops reference job_id n os w).0 ≡ ok tt)
      × (map place_of (filter_rows (of_job job_id) w'.db.drop_offs.rows)
          ≡ map place_of (filter_rows (of_job job_id) w.db.drop_offs.rows) ++ planned n os)
      × (w'.db.orders ≡ w.db.orders)
      × (w'.db.jobs ≡ w.db.jobs)
unfolding create_stops
stops_added job_id n [] w = (
  refl,
  sym (append-nil (map place_of (filter_rows (of_job job_id) w.db.drop_offs.rows))),
  refl,
  refl,
)
stops_added job_id n (o ∷ os) w =
    let (a, b, c, d) = stops_added job_id (suc n) os _ in
    let rows = w.db.drop_offs.rows in
    (
      a,
      b
          ∙ rw
              (
                filter-append (of_job job_id) rows (stop_for job_id n o w.db.drop_offs.next_id)
                    (same_id job_id),
                map-append-last place_of (filter_rows (of_job job_id) rows)
                    (stop_for job_id n o w.db.drop_offs.next_id) (planned (suc n) os),
              )
              refl,
      c,
      d,
    )

none_left_out :
    (batch_id deliverer_id job_id : ℕ) (rows : List Order)
    → count_rows (is_left_out batch_id deliverer_id job_id) (
        update_rows
          (λ o. is_value o.delivery_batch_id batch_id)
          (λ o. record o {
            deliverer_id = some deliverer_id;
            delivery_job_id = some job_id;
            status = OrderStatus.waiting_for_deliverer;
          })
          rows)
      ≡ 0
unfolding count_rows update_rows
none_left_out batch_id deliverer_id job_id [] = refl
none_left_out batch_id deliverer_id job_id (o ∷ os) =
    ground (arith, none_left_out batch_id deliverer_id job_id os)

-- The world before the stops are made.
abbrev cleared : ℕ → ℕ → Job → World → World
cleared batch_id deliverer_id job w = record w {
  db = record w.db {
    orders = record w.db.orders {
      rows =
          update_rows (λ o. is_value o.delivery_batch_id batch_id)
            (λ o. record o {
              deliverer_id = some deliverer_id;
              delivery_job_id = some job.id;
              status = OrderStatus.waiting_for_deliverer;
            })
            w.db.orders.rows;
    };
    drop_offs = record w.db.drop_offs { rows = drop_rows (of_job job.id) w.db.drop_offs.rows };
  };
}

-- What a job holds: a stop for each order, in order, and none left out.
pub record IsFilled (batch_id deliverer_id : ℕ) (os : List Order) (job_id : ℕ) (db : Db)
    : Type 0 where
  pub stops : map place_of (filter_rows (of_job job_id) db.drop_offs.rows) ≡ planned 0 os
  pub waiting : count_rows (is_left_out batch_id deliverer_id job_id) db.orders.rows ≡ 0

pub fill-IsFilled :
    (batch_id deliverer_id : ℕ) (os : List Order) (job : Job) (w : World)
    → let w' = (fill_job reference batch_id deliverer_id os job w).1 in
      ((fill_job reference batch_id deliverer_id os job w).0 ≡ ok job)
      × IsFilled batch_id deliverer_id os job.id w'.db
      × (w'.db.jobs ≡ w.db.jobs)
unfolding fill_job
fill-IsFilled batch_id deliverer_id os job w =
    let (a, b, c, d) = stops_added job.id 0 os (cleared batch_id deliverer_id job w) in
    let none = filter-drop_rows (of_job job.id) w.db.drop_offs.rows in
    let waits = none_left_out batch_id deliverer_id job.id w.db.orders.rows in
    rw (a, record_event_lem) (refl, record { stops = b ∙ rw none refl; waiting = rw c waits }, d)
