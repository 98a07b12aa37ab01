-- ===== src/Delivery/Assignment/Progress.antt =====
-- About assignDelivererToBatch of src/deliverer/deliverer-assignment.service.ts: a batch gets its
-- deliverer.
use mesyaf_market.Prelude.{
  ◌≡◌, refl, ap, ℕ, Bool, true, false, Option, none, some, List, [], ◌∷◌, ◌==◌, ◌&&◌, ◌||◌, map,
  All, is_none, inl, inr, same_id, arith,
}
use mesyaf_market.Database.Schema.{Float, Order, Batch, Job, DelivererProfile}
use mesyaf_market.Database.World.{World, Result, ok, err}
use mesyaf_market.Database.Rows.{find_row, filter_rows, count_rows, count_rows_pos}
use mesyaf_market.Database.Prisma.{Prisma, Documented, Documented-reference, reference, settle}
use mesyaf_market.Delivery.Geo.{FloatOps}
use mesyaf_market.Delivery.Assignment.{
  is_taken, is_free, is_unclaimed, claim_batch, claim_both, upsert_job, find_closest_deliverer,
  with_locations, lookup_location, relocated, or_first, find_available, is_present, assign_nearest,
  assign_available, assign_pickup, assign_orders, assign_deliverer_to_batch, is_set,
}
use mesyaf_market.Delivery.Assignment.Exclusive.{is_free_one, both_claimed, upsert_keeps}
use mesyaf_market.Delivery.Assignment.Stops.{fill-IsFilled}
use mesyaf_market.Delivery.Assignment.Filled.{job_of, upsert_names_job}
use mesyaf_market.Delivery.Assignment.Choice.{
  filtered_counts, of_relocated, All-with_locations, scan-Holds, or_first-Holds, Holds,
}
use mesyaf_market.Delivery.Assignment.Outcome.{
  IsAssigned, batch_orders, needs_nothing, found_places, Outcome, assignment-Outcome,
}

settled_same :
    {A : Type 0} (w : World) (r : Result A × World) (a : A) → r.0 ≡ ok a → (settle w r).0 ≡ ok a
settled_same w (ok b, w') a h = h
settled_same w (err x, w') a h = cc

both_succeed :
    (batch_id deliverer_id : ℕ) (os : List Order) (job : Job) (w : World)
    → (count_rows (is_unclaimed batch_id) w.db.batches.rows == 0) ≡ false
    → (count_rows (is_free_one deliverer_id) w.db.deliverers.rows == 0) ≡ false
    → count_rows (is_taken job.id) w.db.deliverers.rows ≡ 0
    → (claim_both reference batch_id deliverer_id os job w).0 ≡ ok job
unfolding claim_both
both_succeed batch_id deliverer_id os job w b c t =
    let (a, _, _) =
      fill-IsFilled batch_id deliverer_id os job (both_claimed batch_id deliverer_id job w) in
    rw (b, c, t) a

-- A claim of an unclaimed batch for a free deliverer is made.
claim_succeeds :
    (batch_id deliverer_id : ℕ) (os : List Order) (w : World)
    → (count_rows (is_unclaimed batch_id) w.db.batches.rows == 0) ≡ false
    → (count_rows (is_free_one deliverer_id) w.db.deliverers.rows == 0) ≡ false
    → count_rows (is_taken (job_of reference batch_id w)) w.db.deliverers.rows ≡ 0
    → (j : Job) × ((settle w (claim_batch reference batch_id deliverer_id os w)).0 ≡ ok j)
unfolding claim_batch
claim_succeeds batch_id deliverer_id os w b c t =
    let (job, a, named) = upsert_names_job batch_id deliverer_id os w in
    let (sb, sc) = upsert_keeps batch_id deliverer_id os w in
    let w' = (upsert_job reference batch_id deliverer_id os w).1 in
    (
      job,
      settled_same w (claim_batch reference batch_id deliverer_id os w) job (
          rw a (
            both_succeed batch_id deliverer_id os job w' (rw (ap (λ t. t.rows) sb) b)
              (rw (ap (λ t. t.rows) sc) c) (rw (ap (λ t. t.rows) sc, named) t))),
    )

-- Some deliverer with the id is free.
abbrev IsFree : World → ℕ → Type 0
IsFree w id = ¬ (count_rows (is_free_one id) w.db.deliverers.rows ≡ 0)

not_zero : (n : ℕ) → ¬ (n ≡ 0) → (n == 0) ≡ false
not_zero n h = ground arith

or_false : (a b : Bool) → (a || b) ≡ false → (a ≡ false) × (b ≡ false)
or_false true b h = cc
or_false false b h = (refl, h)

available-IsFree :
    (float : FloatOps) (w : World) (ds : List DelivererProfile)
    → find_available reference float w ≡ (ok ds, w)
    → All (λ d. IsFree w d.id) ds
unfolding find_available
available-IsFree float w ds h =
    let now = w.now in
    let rows = w.db.deliverers.rows in
    let test : DelivererProfile → Bool =
      λ d. is_free d && is_present (find_row (λ u. u.id == d.user_id) w.db.users.rows) now in
    let all =
      filtered_counts test (λ r d. is_free_one r.id d) (λ r e. ground (arith, same_id r.id)) rows
        rows (λ r z. z) in
    let same : filter_rows test rows ≡ ds = cc in rw same at all

module _ (float : FloatOps) where
  nearest_given :
      (batch_id : ℕ) (os : List Order) (lat lng : Float) (d : DelivererProfile)
      (ds : List DelivererProfile) (w : World)
      → ¬ (count_rows (is_unclaimed batch_id) w.db.batches.rows ≡ 0)
      → count_rows (is_taken (job_of reference batch_id w)) w.db.deliverers.rows ≡ 0
      → All (λ d. IsFree w d.id) (d ∷ ds)
      → (assign_nearest reference float batch_id os lat lng d ds w).0 ≡ ok tt
  unfolding assign_nearest find_closest_deliverer Holds
  nearest_given batch_id os lat lng d ds w b t (h, hs) =
      let (found, e) = found_places (map (λ (r : DelivererProfile). r.id) (d ∷ ds)) w in
      let first = relocated (lookup_location d.id found) d in
      let located = with_locations found (d ∷ ds) in
      let scan =
        scan-Holds (IsFree w) float lat lng located (none, float.infinity)
          (All-with_locations (IsFree w) found (d ∷ ds) (h, hs)) tt in
      let free =
        or_first-Holds (IsFree w) (find_closest_deliverer float located lat lng) first scan
          (of_relocated (IsFree w) (lookup_location d.id found) d h) in
      let id = (or_first (find_closest_deliverer float located lat lng) first).id in
      let (j, k) =
        claim_succeeds batch_id id os w
          (not_zero (count_rows (is_unclaimed batch_id) w.db.batches.rows) b)
          (not_zero (count_rows (is_free_one id) w.db.deliverers.rows) free) t in
      rw (e, k) refl

  pickup_given :
      (batch_id : ℕ) (os : List Order) (lat lng : Option Float) (c : DelivererProfile)
      (cs : List DelivererProfile) (w : World)
      → (is_none lat || is_none lng) ≡ false
      → ¬ (count_rows (is_unclaimed batch_id) w.db.batches.rows ≡ 0)
      → count_rows (is_taken (job_of reference batch_id w)) w.db.deliverers.rows ≡ 0
      → find_available reference float w ≡ (ok (c ∷ cs), w)
      → (assign_pickup reference float batch_id os lat lng w).0 ≡ ok tt
  unfolding assign_pickup assign_available
  pickup_given batch_id os none lng c cs w p b t h = cc
  pickup_given batch_id os (some lat) none c cs w p b t h = cc
  pickup_given batch_id os (some lat) (some lng) c cs w p b t h =
      rw h (nearest_given batch_id os lat lng c cs w b t (available-IsFree float w (c ∷ cs) h))

  orders_given :
      (batch_id : ℕ) (b : Batch) (os : List Order) (c : DelivererProfile)
      (cs : List DelivererProfile) (w : World)
      → needs_nothing (some b) os ≡ false
      → ¬ (count_rows (is_unclaimed batch_id) w.db.batches.rows ≡ 0)
      → count_rows (is_taken (job_of reference batch_id w)) w.db.deliverers.rows ≡ 0
      → find_available reference float w ≡ (ok (c ∷ cs), w)
      → (assign_orders reference float batch_id b os w).0 ≡ ok tt
  unfolding assign_orders
  orders_given batch_id b [] c cs w n u t h = cc
  orders_given batch_id b (o ∷ os) c cs w n u t h =
      let (m, g) =
        or_false (is_set b.deliverer_id || is_none o.vendor_lat) (is_none o.vendor_lng) n in
      let (e, l) = or_false (is_set b.deliverer_id) (is_none o.vendor_lat) m in
      let p : (is_none o.vendor_lat || is_none o.vendor_lng) ≡ false = rw (l, g) refl in
      rw e (pickup_given batch_id (o ∷ os) o.vendor_lat o.vendor_lng c cs w p u t h)

  call_given :
      (batch_id : ℕ) (b : Batch) (c : DelivererProfile) (cs : List DelivererProfile) (w : World)
      → reference.find_first (λ b. b.id == batch_id) w.db.batches ≡ some b
      → is_unclaimed batch_id b ≡ true
      → needs_nothing (some b) (batch_orders reference batch_id w.db) ≡ false
      → count_rows (is_taken (job_of reference batch_id w)) w.db.deliverers.rows ≡ 0
      → find_available reference float w ≡ (ok (c ∷ cs), w)
      → (assign_deliverer_to_batch reference float batch_id w).0 ≡ ok tt
  unfolding assign_deliverer_to_batch
  call_given batch_id b c cs w f u n t h = rw f (
      orders_given batch_id b (batch_orders reference batch_id w.db) c cs w n
        (count_rows_pos (λ b. b.id == batch_id) (is_unclaimed batch_id) w.db.batches.rows b f u) t
        h)

given :
    (prisma : Prisma) (batch_id : ℕ) (batch : Option Batch) (os : List Order) (w : World)
    (r : Result Unit × World)
    → needs_nothing batch os ≡ false
    → r.0 ≡ ok tt
    → Outcome prisma batch_id batch os w r
    → (id : ℕ) × (j : Job) × IsAssigned prisma batch_id id os j w.db r.1.db
given prisma batch_id batch os w r n h (inl (e, _)) = cc
given prisma batch_id batch os w r n h (inr (inl (inl e, _))) = cc
given prisma batch_id batch os w r n h (inr (inl (inr (inl e), _))) = cc
given prisma batch_id batch os w r n h (inr (inl (inr (inr e), _))) = cc
given prisma batch_id batch os w r n h (inr (inr (_, id, j, a))) = (id, j, a)

module _ {prisma : Prisma} (d : Documented prisma) where
  called :
      (float : FloatOps) (batch_id : ℕ) (b : Batch) (c : DelivererProfile)
      (cs : List DelivererProfile) (w : World)
      → prisma.find_first (λ b. b.id == batch_id) w.db.batches ≡ some b
      → is_unclaimed batch_id b ≡ true
      → needs_nothing (some b) (batch_orders prisma batch_id w.db) ≡ false
      → prisma.count (is_taken (job_of prisma batch_id w)) w.db.deliverers ≡ 0
      → find_available prisma float w ≡ (ok (c ∷ cs), w)
      → (assign_deliverer_to_batch prisma float batch_id w).0 ≡ ok tt
  called = rw (Documented-reference d) call_given

  -- A batch that is closed and unclaimed, with orders and a place to pick them up, gets a deliverer
  -- by one call of assignDelivererToBatch, if any deliverer is available and the batch's job, or the
  -- next new one, is no deliverer's active job: the call returns, and the batch is given as
  -- `IsAssigned` says, so that its row names a deliverer, who was free and is busy with its job.
  pub batch_gets_deliverer :
      (float : FloatOps) (batch_id : ℕ) (b : Batch) (c : DelivererProfile)
      (cs : List DelivererProfile) (w : World)
      → prisma.find_first (λ b. b.id == batch_id) w.db.batches ≡ some b
      → is_unclaimed batch_id b ≡ true
      → needs_nothing (some b) (batch_orders prisma batch_id w.db) ≡ false
      → prisma.count (is_taken (job_of prisma batch_id w)) w.db.deliverers ≡ 0
      → find_available prisma float w ≡ (ok (c ∷ cs), w)
      → let r = assign_deliverer_to_batch prisma float batch_id w in
        (r.0 ≡ ok tt)
        × (id : ℕ) × (j : Job) × IsAssigned prisma batch_id id
            (batch_orders prisma batch_id w.db)
            j
            w.db
            r.1.db
  batch_gets_deliverer float batch_id b c cs w f u n t h =
      let done = called float batch_id b c cs w f u n t h in
      let (id, j, a) =
        given prisma batch_id (some b) (batch_orders prisma batch_id w.db) w
          (assign_deliverer_to_batch prisma float batch_id w) n done
          (rw f at (assignment-Outcome d float batch_id w)) in
      (done, id, j, a)
