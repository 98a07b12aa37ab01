-- ===== src/Order/Ready/Bounded.antt =====
-- About vendorMarkReady of src/order/order.service.ts: no batch grows beyond five orders.
use mesyaf_market.Prelude.{ℕ, ◌<◌, Bool, ◌&&◌, ◌==◌, inl, inr, Bool-cases}
use mesyaf_market.Database.Schema.{Order, Batch, JobStatus, is_job}
use mesyaf_market.Database.World.{World, Result, ok, err, enqueue}
use mesyaf_market.Database.Rules.{Result-cases}
use mesyaf_market.Database.Rows.{count_rows, All-update_rows}
use mesyaf_market.Database.Prisma.{Prisma, Documented, Documented-reference, reference}
use mesyaf_market.Delivery.Geo.{FloatOps}
use mesyaf_market.Order.Batching.{Settings, CityRules, city_rules}
use mesyaf_market.Order.Closing.{BatchOutcome, after_batching, close_batch, schedule_batch_timeout}
use mesyaf_market.Order.Ready.{vendor_mark_ready, claim_ready, announce_ready, type_of_order}
use mesyaf_market.Order.Ready.Claims.{start_cases, by_finish, finish}
use mesyaf_market.Order.Ready.Small.{IsSmall, claim-IsSmall}

close_batch-IsSmall :
    (id : ℕ) (w : World) → IsSmall w.db → IsSmall (close_batch reference id w).1.db
unfolding close_batch enqueue
close_batch-IsSmall id w (five, one, fresh, old) =
    let p : Batch → Bool = λ b. b.id == id && is_job b.status JobStatus.pending in
    let kept =
      All-update_rows (λ b. b.id < w.db.batches.next_id) (λ b. b.id < w.db.batches.next_id) p
        (λ b. record b { status = JobStatus.in_progress }) (λ r u v. u) (λ r u v. u)
        w.db.batches.rows old in
    elim (Bool-cases (count_rows p w.db.batches.rows == 0)) [
      | inl e ↦ rw e (five, one, fresh, kept)
      | inr e ↦ elim (Bool-cases w.queue_online) [
        | inl q ↦ rw (e, q) (five, one, fresh, kept)
        | inr q ↦ rw (e, q) (five, one, fresh, kept)
      ]
    ]

schedule-IsSmall :
    (rules : CityRules) (id : ℕ) (w : World)
    → IsSmall w.db
    → IsSmall (schedule_batch_timeout reference rules id w).1.db
unfolding schedule_batch_timeout enqueue
schedule-IsSmall rules id w h = elim (Bool-cases w.queue_online) [ inl q ↦ rw q h | inr q ↦ rw q h ]

after_batching-IsSmall :
    (rules : CityRules) (b : BatchOutcome) (w : World)
    → IsSmall w.db
    → IsSmall (after_batching reference rules b w).1.db
unfolding after_batching
after_batching-IsSmall rules b w h =
    let w' = (schedule_batch_timeout reference rules b.batch_id w).1 in
    let timed = schedule-IsSmall rules b.batch_id w h in
    elim (Bool-cases b.created) [
      | inr c ↦ elim (Bool-cases b.close) [
        | inr k ↦ rw (c, k) h
        | inl k ↦ rw (c, k) (close_batch-IsSmall b.batch_id w h)
      ]
      | inl c ↦ elim (Result-cases (schedule_batch_timeout reference rules b.batch_id w).0) [
        | inl (x, e) ↦ rw (c, e) timed
        | inr (u, e) ↦ elim (Bool-cases b.close) [
          | inr k ↦ rw (c, e, k) timed
          | inl k ↦ rw (c, e, k) (close_batch-IsSmall b.batch_id w' timed)
        ]
      ]
    ]

module _ (float : FloatOps) (s : Settings) where
  finish-IsSmall :
      (o : Order) (w : World) (c : Result (Order × BatchOutcome) × World)
      → IsSmall w.db
      → IsSmall c.1.db
      → IsSmall (finish float s o w c).1.db
  unfolding finish announce_ready
  finish-IsSmall o w (ok (q, b), w') h k = after_batching-IsSmall (city_rules s) b w' k
  finish-IsSmall o w (err y, w') h k = h

  mark_ready-IsSmall :
      (order_id user_id : ℕ) (w : World)
      → IsSmall w.db
      → IsSmall (vendor_mark_ready reference float s order_id user_id w).1.db
  mark_ready-IsSmall order_id user_id w h = elim (start_cases float s order_id user_id w) [
    | inl (o, e) ↦
        let t = type_of_order reference w.db order_id in
        rw (e, by_finish float s order_id o w)
          (finish-IsSmall o w (claim_ready reference float s order_id t w) h
            (claim-IsSmall float s order_id t w h))
    | inr (x, e) ↦ rw e h
  ]

module _ {prisma : Prisma} (d : Documented prisma) (float : FloatOps) (s : Settings) where
  -- vendorMarkReady keeps every batch at five orders at most, whether or not it throws: the
  -- invariant says besides that an id is of one order, that the batches are older than the next id,
  -- and that no order is in a batch yet to come.
  pub vendor_mark_ready-IsSmall :
      (order_id user_id : ℕ) (w : World)
      → IsSmall w.db
      → IsSmall (vendor_mark_ready prisma float s order_id user_id w).1.db
  vendor_mark_ready-IsSmall = rw (Documented-reference d) (mark_ready-IsSmall float s)
