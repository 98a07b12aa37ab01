-- ===== src/Delivery/Assignment.antt =====
-- src/deliverer/deliverer-assignment.service.ts: a closed batch is given to the nearest deliverer
-- who is free and present.
pub mod Exclusive
pub mod Filled
pub mod Outcome
pub mod Progress
pub mod Choice
pub mod Stops
pub mod Nearest
mod Examples
use mesyaf_market.Prelude.{
  ℕ, suc, ◌+◌, Bool, false, Option, none, some, List, [], ◌∷◌, map, ◌&&◌, not, ◌==◌, is_value,
  is_none, ltb, if◌then◌else◌, length,
}
use mesyaf_market.Database.Schema.{
  Float, OrderStatus, JobStatus, EventEntityType, Job, Batch, DelivererProfile, Order, User, is_job,
}
use mesyaf_market.Database.World.{
  unique_violation, Emission, Exec, pure, throw, throw_if, gets, swallow, emit, for_each, ◌>>=◌,
  ◌>>◌, conflict, no_deliverer_available, delivery_assigned,
}
use mesyaf_market.Database.Prisma.{
  count, Prisma, deliverers, orders, drop_offs, jobs, batches, find_first, find_many, create,
  update_many, delete_many, upsert,
}
use mesyaf_market.Events.{job_assigned, record_event}
use mesyaf_market.Delivery.Geo.{FloatOps, calc_distance_km}
use mesyaf_market.Delivery.Location.{get_many}
use mesyaf_market.Delivery.Jobs.{job_payload}

-- PRESENCE_WINDOW_MS
abbrev pub presence_window_ms : ℕ
presence_window_ms = 120000

module _ (float : FloatOps) where
  -- One round of the loop of `findClosestDeliverer`, on `closest` and `minDistance`.
  unfoldable pub closer :
      Float
      → Float
      → DelivererProfile
      → Option DelivererProfile × Float
      → Option DelivererProfile × Float
  closer lat lng d (closest, min_distance) = elim d.current_lat [
    | none ↦ (closest, min_distance)
    | some d_lat ↦ elim d.current_lng [
      | none ↦ (closest, min_distance)
      | some d_lng ↦
          let dist = calc_distance_km float lat lng d_lat d_lng in
          if float.lt dist min_distance then (some d, dist) else (closest, min_distance)
    ]
  ]

  unfoldable pub scan_closest :
      Float
      → Float
      → List DelivererProfile
      → Option DelivererProfile × Float
      → Option DelivererProfile × Float
  scan_closest lat lng [] best = best
  scan_closest lat lng (d ∷ ds) best = scan_closest lat lng ds (closer lat lng d best)

  -- DelivererAssignmentService.findClosestDeliverer
  unfoldable pub find_closest_deliverer :
      List DelivererProfile → Float → Float → Option DelivererProfile
  find_closest_deliverer ds lat lng = (scan_closest lat lng ds (none, float.infinity)).0

-- `lastSeenAt: { gt: new Date(Date.now() - window) }`
abbrev pub seen_since : Option ℕ → ℕ → Bool
seen_since none now = false
seen_since (some t) now = ltb now (t + presence_window_ms)

abbrev pub is_present : Option User → ℕ → Bool
is_present none now = false
is_present (some u) now = u.is_online && seen_since u.last_seen_at now

abbrev pub is_free : DelivererProfile → Bool
is_free d = d.availability && is_none d.active_job_id

-- The job is the deliverer's active one; the column activeJobId is unique.
abbrev pub is_taken : ℕ → DelivererProfile → Bool
is_taken job_id d = is_value d.active_job_id job_id

-- A batch that a deliverer may be given.
abbrev pub is_unclaimed : ℕ → Batch → Bool
is_unclaimed batch_id b =
    b.id == batch_id && is_none b.deliverer_id && is_job b.status JobStatus.in_progress

-- JavaScript's truth of a nullable id
abbrev pub is_set : Option ℕ → Bool
is_set none = false
is_set (some k) = not (k == 0)

unfoldable pub lookup_location : ℕ → List (ℕ × Float × Float) → Option (Float × Float)
lookup_location id [] = none
lookup_location id ((k, lat, lng) ∷ rest) =
    if k == id then some (lat, lng) else lookup_location id rest

abbrev relocated : Option (Float × Float) → DelivererProfile → DelivererProfile
relocated none d = d
relocated (some (lat, lng)) d = record d { current_lat = some lat; current_lng = some lng }

-- `withLocation`
unfoldable pub with_locations :
    List (ℕ × Float × Float) → List DelivererProfile → List DelivererProfile
unfolding lookup_location
with_locations fresh [] = []
with_locations fresh (d ∷ ds) = relocated (lookup_location d.id fresh) d ∷ with_locations fresh ds

-- `a ?? b` on rows
abbrev or_first : Option DelivererProfile → DelivererProfile → DelivererProfile
or_first none d = d
or_first (some c) d = c

module _ (prisma : Prisma) where
  -- `deliveryDropOff.createMany`, one stop for each order in its place
  unfoldable pub create_stops : ℕ → ℕ → List Order → Exec (Unit {0})
  create_stops job_id index [] = pure tt
  create_stops job_id index (o ∷ os) =
      create prisma drop_offs (λ id. record {
        id = id;
        job_id = job_id;
        order_id = o.id;
        sequence = index;
        status = JobStatus.pending;
        dropoff_lat = o.customer_lat;
        dropoff_lng = o.customer_lng;
        completed_at = none;
      })
      >> create_stops job_id (suc index) os

  -- The transaction of assignDelivererToBatch, once both claims are made.
  pub fill_job : ℕ → ℕ → List Order → Job → Exec Job
  unfolding create_stops
  fill_job batch_id deliverer_id batch_orders job = do
    update_many prisma orders (λ o. is_value o.delivery_batch_id batch_id)
        (λ o. record o {
          deliverer_id = some deliverer_id;
          delivery_job_id = some job.id;
          status = OrderStatus.waiting_for_deliverer;
        })
    delete_many prisma drop_offs (λ s. s.job_id == job.id)
    create_stops job.id 0 batch_orders
    record_event prisma EventEntityType.job job.id job_assigned
        (job_payload job.id JobStatus.assigned)
    pure job

  -- The transaction of assignDelivererToBatch from the claim of the batch on.
  claim_both : ℕ → ℕ → List Order → Job → Exec Job
  unfolding fill_job
  claim_both batch_id deliverer_id batch_orders job = do
    updated_batch ←
        update_many prisma batches (is_unclaimed batch_id)
          (λ b. record b { deliverer_id = some deliverer_id })
    throw_if (updated_batch == 0) conflict
    taken ← count prisma deliverers (is_taken job.id)
    updated_deliverer ←
        update_many prisma deliverers (λ d. d.id == deliverer_id && is_free d)
          (λ d. record d { availability = false; active_job_id = some job.id })
    throw_if (updated_deliverer == 0) conflict
    throw_if (not (taken == 0)) unique_violation
    fill_job batch_id deliverer_id batch_orders job

  pub upsert_job : ℕ → ℕ → List Order → Exec Job
  upsert_job batch_id deliverer_id batch_orders = do
    now ← gets (λ w. w.now)
    upsert prisma jobs (λ j. j.batch_id == batch_id)
        (λ j. record j {
          deliverer_id = some deliverer_id;
          status = JobStatus.assigned;
          total_orders = some (length batch_orders);
          assigned_at = now;
          started_at = none;
          completed_at = none;
        })
        (λ id. record {
          id = id;
          deliverer_id = some deliverer_id;
          batch_id = batch_id;
          status = JobStatus.assigned;
          assigned_at = now;
          started_at = none;
          completed_at = none;
          total_orders = some (length batch_orders);
        })

  -- The transaction of assignDelivererToBatch.
  unfoldable pub claim_batch : ℕ → ℕ → List Order → Exec Job
  unfolding upsert_job claim_both
  claim_batch batch_id deliverer_id batch_orders = do
    job ← upsert_job batch_id deliverer_id batch_orders
    claim_both batch_id deliverer_id batch_orders job

  -- The try block after the commit.
  notify_assigned : ℕ → Job → ℕ → List Order → Exec (Unit {0})
  notify_assigned batch_id job deliverer_id batch_orders =
      emit (Emission.job_assigned deliverer_id job.id batch_id (length batch_orders))
      >> for_each (λ o. emit (delivery_assigned o.customer_id job.id deliverer_id)) batch_orders

  module _ (float : FloatOps) where
    -- The rest, once the batch has an order with a position and a deliverer is available.
    pub assign_nearest :
        ℕ → List Order → Float → Float → DelivererProfile → List DelivererProfile → Exec (Unit {0})
    assign_nearest batch_id batch_orders lat lng d ds = do
      fresh ← get_many prisma (map (λ r. r.id) (d ∷ ds))
      let located = with_locations fresh (d ∷ ds)
      let first = relocated (lookup_location d.id fresh) d
      let deliverer = or_first (find_closest_deliverer float located lat lng) first
      job ← prisma.transaction (claim_batch batch_id deliverer.id batch_orders)
      swallow (notify_assigned batch_id job deliverer.id batch_orders)

    assign_available : ℕ → List Order → Float → Float → List DelivererProfile → Exec (Unit {0})
    assign_available batch_id batch_orders lat lng [] = throw (no_deliverer_available batch_id)
    assign_available batch_id batch_orders lat lng (d ∷ ds) =
        assign_nearest batch_id batch_orders lat lng d ds

    -- The available deliverers: free, online and recently seen.
    unfoldable pub find_available : Exec (List DelivererProfile)
    find_available = do
      now ← gets (λ w. w.now)
      found ← gets (λ w. w.db)
      find_many prisma deliverers (λ d.
          is_free d && is_present (prisma.find_first (λ u. u.id == d.user_id) found.users) now)

    assign_pickup : ℕ → List Order → Option Float → Option Float → Exec (Unit {0})
    assign_pickup batch_id batch_orders (some lat) (some lng) = do
      available ← find_available
      assign_available batch_id batch_orders lat lng available
    assign_pickup batch_id batch_orders _ _ = pure tt

    pub assign_orders : ℕ → Batch → List Order → Exec (Unit {0})
    assign_orders batch_id b [] = pure tt
    assign_orders batch_id b (o ∷ os) =
        if is_set b.deliverer_id
        then pure tt
        else assign_pickup batch_id (o ∷ os) o.vendor_lat o.vendor_lng

    -- DelivererAssignmentService.assignDelivererToBatch
    unfoldable pub assign_deliverer_to_batch : ℕ → Exec (Unit {0})
    assign_deliverer_to_batch batch_id = do
      batch ← find_first prisma batches (λ b. b.id == batch_id)
      rows ← find_many prisma orders (λ o. is_value o.delivery_batch_id batch_id)
      elim batch [
        | none ↦ pure tt
        | some b ↦ assign_orders batch_id b (prisma.order_by (λ o. o.ready_at) rows)
      ]

    -- DelivererAssignmentProcessor.process
    unfoldable pub process_assignment : ℕ → Exec (Unit {0})
    unfolding assign_deliverer_to_batch
    process_assignment = assign_deliverer_to_batch
