-- ===== src/Order/Ready/Claimable.antt =====
-- About the transaction of vendorMarkReady in src/order/order.service.ts: it leaves no order to claim.
use mesyaf_market.Prelude.{
  ◌≡◌, ℕ, ◌≤◌, Bool, some, List, [], ◌∷◌, ◌&&◌, ◌==◌, arith, Option-cases, inl, inr,
}
use mesyaf_market.Database.Schema.{EventEntityType, Order, OrderType, OrderStatus, Batch}
use mesyaf_market.Database.World.{World, Db}
use mesyaf_market.Database.Rows.{
  find_row, count_rows, update_rows, count-update_rows_self, count-update_rows_le,
}
use mesyaf_market.Database.Prisma.{reference}
use mesyaf_market.Delivery.Geo.{FloatOps}
use mesyaf_market.Events.{order_ready}
use mesyaf_market.Delivery.Jobs.{order_payload}
use mesyaf_market.Events.Record.{record_event_lem}
use mesyaf_market.Order.Batching.{Settings, CityRules, city_rules}
use mesyaf_market.Order.Ready.{
  is_readyable, claim_ready, assign_to_batch, try_batches, join_batch, open_batch, orders_in,
}

abbrev pub is_claimable : ℕ → Order → Bool
is_claimable order_id o = o.id == order_id && is_readyable o.status

abbrev pub claimable : ℕ → World → ℕ
claimable order_id w = count_rows (is_claimable order_id) w.db.orders.rows

set_batch : ℕ → Order → Order
set_batch b r = record r { delivery_batch_id = some b }

-- Writing a batch to an order leaves it as claimable as it was.
set_batch_le :
    (order_id id b : ℕ) (rows : List Order)
    → count_rows (is_claimable order_id) (update_rows (λ r. r.id == id) (set_batch b) rows)
      ≤ count_rows (is_claimable order_id) rows
unfolding set_batch
set_batch_le order_id id b rows =
    count-update_rows_le (is_claimable order_id) (λ r. r.id == id) (set_batch b) (λ r h k. k) rows

module _ (float : FloatOps) (s : Settings) where
  open_batch_le :
      (order_id : ℕ) (o : Order) (w : World)
      → claimable order_id (open_batch reference float s o w).1 ≤ claimable order_id w
  unfolding open_batch set_batch
  open_batch_le order_id o w =
      ground (arith, set_batch_le order_id o.id w.db.batches.next_id w.db.orders.rows)

  join_batch_le :
      (order_id : ℕ) (rules : CityRules) (o : Order) (b : Batch) (os : List Order) (w : World)
      → claimable order_id (join_batch reference float s rules o b os w).1 ≤ claimable order_id w
  unfolding join_batch set_batch
  join_batch_le order_id rules o b os w =
      ground (arith, set_batch_le order_id o.id b.id w.db.orders.rows)

  try_batches_le :
      (order_id : ℕ) (rules : CityRules) (o : Order) (db : Db) (bs : List Batch) (w : World)
      → claimable order_id (try_batches reference float s rules o db bs w).1 ≤ claimable order_id w
  unfolding try_batches
  try_batches_le order_id rules o db [] w = open_batch_le order_id o w
  try_batches_le order_id rules o db (b ∷ bs) w = ground (
    arith,
    join_batch_le order_id rules o b (orders_in reference db b.id) w,
    try_batches_le order_id rules o db bs w,
  )

  assign_le :
      (order_id : ℕ) (rules : CityRules) (o : Order) (w : World)
      → claimable order_id (assign_to_batch reference float s rules o w).1 ≤ claimable order_id w
  unfolding assign_to_batch
  assign_le order_id rules o w = try_batches_le order_id rules o w.db _ w

  -- The world with the orders claimed.
  abbrev pub claimed : ℕ → OrderType → World → World
  claimed order_id t w = record w {
    db = record w.db {
      orders = record w.db.orders {
        rows =
            update_rows (is_claimable order_id)
              (λ o. record o {
                status = OrderStatus.ready_for_delivery;
                order_type = t;
                ready_at = some w.now;
              })
              w.db.orders.rows;
      };
    };
  }

  claimed_none :
      (order_id : ℕ) (t : OrderType) (w : World) → claimable order_id (claimed order_id t w) ≡ 0
  claimed_none order_id t w =
      count-update_rows_self (is_claimable order_id)
        (λ o. record o {
          status = OrderStatus.ready_for_delivery;
          order_type = t;
          ready_at = some w.now;
        })
        (λ o. ground arith) w.db.orders.rows

  assigned_none :
      (order_id : ℕ) (t : OrderType) (o : Order) (w : World)
      → claimable order_id
          (assign_to_batch reference float s (city_rules s) o (claimed order_id t w)).1
        ≡ 0
  assigned_none order_id t o w =
      let h = assign_le order_id (city_rules s) o (claimed order_id t w) in
      let k = claimed_none order_id t w in omega arith

  pub claim_leaves_none :
      (order_id : ℕ) (t : OrderType) (w : World)
      → claimable order_id (claim_ready reference float s order_id t w).1 ≡ 0
  unfolding claim_ready
  claim_leaves_none order_id t w =
      elim (Option-cases (find_row (λ o. o.id == order_id) (claimed order_id t w).db.orders.rows)) [
        | inl f ↦ ground (arith, claimed_none order_id t w)
        | inr (o, f) ↦ ground (
          arith,
          claimed_none order_id t w,
          assigned_none order_id t o w,
          record_event_lem EventEntityType.order order_id order_ready
              (order_payload order_id OrderStatus.ready_for_delivery)
              (assign_to_batch reference float s (city_rules s) o (claimed order_id t w)).1,
        )
      ]
