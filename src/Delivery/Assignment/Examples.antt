-- ===== src/Delivery/Assignment/Examples.antt =====
-- Examples for the assignment of a batch.
use mesyaf_market.Delivery.Geo.{calc_distance_km}
use mesyaf_market.Delivery.Assignment.Nearest.{IsOrder, distance_of, is_within, nearest_is_found}
use mesyaf_market.Prelude.{ℕ, true, some, ◌==◌, arith, All, false, ◌≡◌, refl, ◌∷◌, []}
use mesyaf_market.Database.Schema.{Batch, JobStatus, Float, DelivererProfile, Job}
use mesyaf_market.Database.World.{World, ok, err, conflict}
use mesyaf_market.Database.Rows.{
  find_row, filter_rows, count_rows, update_rows, sort_rows, insert_row,
}
use mesyaf_market.Database.Prisma.{reference, reference-Documented}
use mesyaf_market.Delivery.Location.{get_many, cached_of, fetch_missing}
use mesyaf_market.Events.{record_event, project_order, project_job, order_row, job_row}
use mesyaf_market.Delivery.Assignment.{
  is_taken, closer, scan_closest, find_closest_deliverer, claim_batch, claim_both, upsert_job,
  fill_job, create_stops, is_unclaimed, assign_deliverer_to_batch, assign_orders, assign_pickup,
  assign_available, assign_nearest, find_available, with_locations, lookup_location,
  notify_assigned,
}
use mesyaf_market.Delivery.Assignment.Outcome.{
  Outcome, IsAssigned, needs_nothing, batch_orders, assignment-Outcome,
}
use mesyaf_market.Delivery.Assignment.Filled.{job_of}
use mesyaf_market.Delivery.Assignment.Progress.{batch_gets_deliverer}
use mesyaf_market.Delivery.Assignment.Exclusive.{is_free_one, batch_claimed_once}
use mesyaf_market.Sample.{
  pending_batch, table, deliverer_user, whole, free_deliverer, closed, assigned_job, placed_order,
}

abbrev new_job : Job
new_job = record assigned_job { id = 10; assigned_at = 1000000 }

given_out :
    (reference.transaction (claim_batch reference 1 1 (placed_order ∷ [])) closed).0 ≡ ok new_job
unfolding claim_batch claim_both upsert_job fill_job create_stops record_event project_order
    project_job order_row job_row find_row count_rows update_rows
given_out = refl

batch_claimed_once_example :
    let w' = (reference.transaction (claim_batch reference 1 1 (placed_order ∷ [])) closed).1 in
    (¬ (reference.count (is_unclaimed 1) closed.db.batches ≡ 0))
    × (¬ (reference.count (is_free_one 1) closed.db.deliverers ≡ 0))
    × (reference.count (is_free_one 1) w'.db.deliverers ≡ 0)
    × (reference.transaction (claim_batch reference 1 2 []) w' ≡ (err conflict, w'))
batch_claimed_once_example =
    batch_claimed_once reference-Documented 1 1 2 (placed_order ∷ []) [] closed new_job given_out

-- The deliverer is there.
abbrev attended : World
attended = record closed {
  db = record closed.db {
    users = table (record deliverer_user { is_online = true; last_seen_at = some 1000000 } ∷ []);
  };
}

assigned : (assign_deliverer_to_batch reference whole 1 attended).0 ≡ ok tt
unfolding assign_deliverer_to_batch assign_orders assign_pickup assign_available assign_nearest
    find_available get_many cached_of fetch_missing with_locations lookup_location
    find_closest_deliverer scan_closest closer calc_distance_km claim_batch claim_both upsert_job
    fill_job create_stops record_event project_order project_job order_row job_row notify_assigned
    find_row filter_rows count_rows update_rows sort_rows insert_row
assigned = refl

assignment-Outcome_example :
    Outcome reference 1
      (reference.find_first (λ b. b.id == 1) attended.db.batches)
      (batch_orders reference 1 attended.db)
      attended
      (assign_deliverer_to_batch reference whole 1 attended)
assignment-Outcome_example = assignment-Outcome reference-Documented whole 1 attended

abbrev closed_batch : Batch
closed_batch = record pending_batch { status = JobStatus.in_progress }

found_batch : reference.find_first (λ b. b.id == 1) attended.db.batches ≡ some closed_batch
unfolding find_row
found_batch = refl

to_be_given : needs_nothing (some closed_batch) (batch_orders reference 1 attended.db) ≡ false
unfolding filter_rows sort_rows insert_row
to_be_given = refl

no_one_has_it : reference.count (is_taken (job_of reference 1 attended)) attended.db.deliverers ≡ 0
unfolding find_row count_rows
no_one_has_it = refl

one_available : find_available reference whole attended ≡ (ok (free_deliverer ∷ []), attended)
unfolding find_available filter_rows find_row
one_available = refl

batch_gets_deliverer_example :
    let r = assign_deliverer_to_batch reference whole 1 attended in
    (r.0 ≡ ok tt)
    × (id : ℕ) × (j : Job) × IsAssigned reference 1 id
        (batch_orders reference 1 attended.db)
        j
        attended.db
        r.1.db
batch_gets_deliverer_example =
    batch_gets_deliverer reference-Documented whole 1 closed_batch free_deliverer [] attended
      found_batch refl to_be_given no_one_has_it one_available

whole-IsOrder : IsOrder whole.lt
whole-IsOrder = record { irreflexive = λ a. ground arith; transitive = λ a b c h k. ground arith }

abbrev far_deliverer : DelivererProfile
far_deliverer = record free_deliverer { id = 2; current_lat = some 90; current_lng = some 90 }

found_near :
    find_closest_deliverer whole (far_deliverer ∷ free_deliverer ∷ []) 5 6 ≡ some free_deliverer
unfolding find_closest_deliverer scan_closest closer calc_distance_km
found_near = refl

nearest_is_found_example :
    (m : Float) × (distance_of whole 5 6 free_deliverer ≡ some m)
    × All
        (λ d. is_within whole 5 6 (distance_of whole 5 6 d) m ≡ false)
        (far_deliverer ∷ free_deliverer ∷ [])
nearest_is_found_example =
    nearest_is_found whole 5 6 whole-IsOrder (far_deliverer ∷ free_deliverer ∷ []) free_deliverer
      found_near
