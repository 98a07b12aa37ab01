-- ===== src/Order/Ready/Claims.antt =====
-- About vendorMarkReady of src/order/order.service.ts: an order is claimed once.
use mesyaf_market.Prelude.{
  ◌≡◌, ◌⊎◌, refl, sym, ℕ, some, ◌==◌, arith, Option-cases, Bool-cases, inl, inr,
}
use mesyaf_market.Database.Schema.{Order, OrderType, OrderStatus}
use mesyaf_market.Database.World.{
  World, continue, Error, Result, ok, err, conflict, not_found, forbidden, enqueue,
}
use mesyaf_market.Database.Rows.{find_row, update_rows_none}
use mesyaf_market.Database.Prisma.{Prisma, Documented, Documented-reference, reference, settle}
use mesyaf_market.Delivery.Geo.{FloatOps}
use mesyaf_market.Order.Batching.{Settings, CityRules, city_rules}
use mesyaf_market.Order.Closing.{BatchOutcome, after_batching, close_batch, schedule_batch_timeout}
use mesyaf_market.Order.Ready.{
  mark_owned, announce_ready, vendor_mark_ready, claim_ready, owns, type_of_order,
}
use mesyaf_market.Order.Ready.Claimable.{is_claimable, claimable, claim_leaves_none}

module _ (float : FloatOps) (s : Settings) where
  claim_none :
      (order_id : ℕ) (t : OrderType) (w : World)
      → claimable order_id w ≡ 0
      → claim_ready reference float s order_id t w ≡ (err conflict, w)
  unfolding claim_ready
  claim_none order_id t w h = ground (
    arith,
    update_rows_none (is_claimable order_id)
        (λ o. record o {
          status = OrderStatus.ready_for_delivery;
          order_type = t;
          ready_at = some w.now;
        })
        w.db.orders.rows h,
  )

  after_batching_keeps :
      (rules : CityRules) (b : BatchOutcome) (w : World)
      → (after_batching reference rules b w).1.db.orders ≡ w.db.orders
  unfolding after_batching close_batch schedule_batch_timeout enqueue
  after_batching_keeps rules b w = ground arith

  -- What follows the transaction, from what the transaction made of a world.
  unfoldable pub finish :
      Order → World → Result (Order × BatchOutcome) × World → Result Order × World
  finish o w c = continue (settle w c).0 (announce_ready reference float s o) (settle w c).1

  pub by_finish :
      (order_id : ℕ) (o : Order) (w : World)
      → mark_owned reference float s order_id o w
        ≡ finish o w
            (claim_ready reference float s order_id (type_of_order reference w.db order_id) w)
  unfolding mark_owned finish
  by_finish order_id o w = refl

  finish_none :
      (order_id : ℕ) (o p : Order) (w : World) (c : Result (Order × BatchOutcome) × World)
      → claimable order_id c.1 ≡ 0
      → (finish o w c).0 ≡ ok p
      → claimable order_id (finish o w c).1 ≡ 0
  unfolding finish announce_ready
  finish_none order_id o p w (ok (q, b), w') h k = rw (after_batching_keeps (city_rules s) b w') h
  finish_none order_id o p w (err x, w') h k = cc

  finish_keeps :
      (o : Order) (x : Error) (w : World) (c : Result (Order × BatchOutcome) × World)
      → (finish o w c).0 ≡ err x
      → (finish o w c).1.db ≡ w.db
  unfolding finish announce_ready
  finish_keeps o x w (ok (q, b), w') k = cc
  finish_keeps o x w (err y, w') k = refl

  -- Either there is an own order to claim, or the call throws at once.
  pub start_cases :
      (order_id user_id : ℕ) (w : World)
      → ((o : Order) × (vendor_mark_ready reference float s order_id user_id w
            ≡ mark_owned reference float s order_id o w))
        ⊎ ((x : Error) × (vendor_mark_ready reference float s order_id user_id w ≡ (err x, w)))
  unfolding vendor_mark_ready
  start_cases order_id user_id w =
      elim (Option-cases (find_row (λ r. r.id == order_id) w.db.orders.rows)) [
        | inl f ↦ inr (not_found, rw f refl)
        | inr (o, f) ↦
            elim (Bool-cases (owns (find_row (λ v. v.user_id == user_id) w.db.vendors.rows) o)) [
              | inl e ↦ inl (o, rw (f, e) refl)
              | inr e ↦ inr (forbidden, rw (f, e) refl)
            ]
      ]

  refused :
      (order_id user_id : ℕ) (w : World)
      → claimable order_id w ≡ 0
      → (x : Error) × (vendor_mark_ready reference float s order_id user_id w ≡ (err x, w))
  unfolding finish
  refused order_id user_id w h = elim (start_cases order_id user_id w) [
    | inl (o, e) ↦ (
      conflict,
      rw
          (
            e,
            by_finish order_id o w,
            claim_none order_id (type_of_order reference w.db order_id) w h,
          )
          refl,
    )
    | inr (x, e) ↦ (x, e)
  ]

  ready_leaves_none :
      (order_id user_id : ℕ) (w : World) (p : Order)
      → (vendor_mark_ready reference float s order_id user_id w).0 ≡ ok p
      → claimable order_id (vendor_mark_ready reference float s order_id user_id w).1 ≡ 0
  ready_leaves_none order_id user_id w p h = elim (start_cases order_id user_id w) [
    | inl (o, e) ↦
        let c = claim_ready reference float s order_id (type_of_order reference w.db order_id) w in
        rw (e, by_finish order_id o w)
          (finish_none order_id o p w c (claim_leaves_none float s order_id _ w)
            (rw (sym (by_finish order_id o w), sym e) h))
    | inr (x, e) ↦ cc
  ]

  failed_keeps :
      (order_id user_id : ℕ) (w : World) (x : Error)
      → (vendor_mark_ready reference float s order_id user_id w).0 ≡ err x
      → (vendor_mark_ready reference float s order_id user_id w).1.db ≡ w.db
  failed_keeps order_id user_id w x h = elim (start_cases order_id user_id w) [
    | inl (o, e) ↦
        let c = claim_ready reference float s order_id (type_of_order reference w.db order_id) w in
        rw (e, by_finish order_id o w)
          (finish_keeps o x w c (rw (sym (by_finish order_id o w), sym e) h))
    | inr (y, e) ↦ rw e refl
  ]

module _ {prisma : Prisma} (d : Documented prisma) (float : FloatOps) (s : Settings) where
  -- An order is marked ready at most once: after a call that returns, no order of this id is in a
  -- status from which it can be marked ready, and every later call, by whichever vendor, throws
  -- and changes nothing.
  pub mark_ready_once :
      (order_id user_id other_id : ℕ) (w : World) (o : Order)
      → (vendor_mark_ready prisma float s order_id user_id w).0 ≡ ok o
      → let w' = (vendor_mark_ready prisma float s order_id user_id w).1 in
        (prisma.count (is_claimable order_id) w'.db.orders ≡ 0)
        × ((x : Error) × (vendor_mark_ready prisma float s order_id other_id w' ≡ (err x, w')))
  mark_ready_once = rw (Documented-reference d) λ order_id user_id other_id w o h. (
    ready_leaves_none float s order_id user_id w o h,
    refused float s order_id other_id (vendor_mark_ready reference float s order_id user_id w).1
        (ready_leaves_none float s order_id user_id w o h),
  )

  -- A call that throws leaves every table as it was: the claim, the batch and the event are
  -- taken back together.
  failed_ready_changes_nothing :
      (order_id user_id : ℕ) (w : World) (x : Error)
      → (vendor_mark_ready prisma float s order_id user_id w).0 ≡ err x
      → (vendor_mark_ready prisma float s order_id user_id w).1.db ≡ w.db
  failed_ready_changes_nothing = rw (Documented-reference d) (failed_keeps float s)
