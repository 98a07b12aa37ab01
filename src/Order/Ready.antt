-- ===== src/Order/Ready.antt =====
-- src/order/order.service.ts: vendorMarkReady, which claims an order and puts it into a batch.
pub mod Claimable
pub mod Claims
pub mod Small
pub mod Bounded
mod Examples
use Prim.Native.Char.{code}
use mesyaf_market.Prelude.{
  ℕ, ◌+◌, Bool, true, false, Option, none, some, List, [], ◌∷◌, ◌&&◌, ◌||◌, not, ◌==◌, is_value,
  any, leb, if◌then◌else◌, ◌++◌, String,
}
use mesyaf_market.Database.Schema.{
  OrderStatus, OrderType, JobStatus, EventEntityType, Batch, Order, OrderItem, Product, Category,
  VendorProfile, is_job, is_order,
}
use mesyaf_market.Database.World.{
  Db, Emission, Exec, pure, throw_if, or_throw, gets, swallow, emit, ◌>>=◌, ◌>>◌, not_found,
  forbidden, conflict, record_missing,
}
use mesyaf_market.Database.Prisma.{
  Prisma, vendors, orders, batches, find_first, find_many, create, update, update_many,
}
use mesyaf_market.Events.{order_ready, record_event}
use mesyaf_market.Delivery.Geo.{FloatOps}
use mesyaf_market.Delivery.Jobs.{order_payload}
use mesyaf_market.Order.Batching.{
  CityRules, Settings, city_rules, check_batch_eligibility, should_close_batch,
}
use mesyaf_market.Order.Closing.{BatchOutcome, after_batching}

-- READYABLE_STATUSES
abbrev pub is_readyable : OrderStatus → Bool
is_readyable s =
    is_order s OrderStatus.pending_vendor_confirmation || is_order s OrderStatus.vendor_accepted

-- `name.toLowerCase() === 'food'`: of all characters only these become the letters of "food".
lower : ℕ → ℕ
lower c = if leb 65 c && leb c 90 then c + 32 else c

same_letters : String → List ℕ → Bool
unfolding lower
same_letters String.[] [] = true
same_letters String.[] (k ∷ ks) = false
same_letters (String.◌∷◌ c s) [] = false
same_letters (String.◌∷◌ c s) (k ∷ ks) = lower (code c) == k && same_letters s ks

unfoldable pub is_food_name : String → Bool
unfolding same_letters
is_food_name name = same_letters name (b'f' ∷ b'o' ∷ b'o' ∷ b'd' ∷ [])

-- `!vendor || vendor.id !== order.vendorId`
abbrev pub owns : Option VendorProfile → Order → Bool
owns none o = false
owns (some v) o = v.id == o.vendor_id

module _ (prisma : Prisma) where
  category_of : Db → Option Product → Option Category
  category_of db none = none
  category_of db (some p) = prisma.find_first (λ c. c.id == p.category_id) db.categories

  is_food_category : Option Category → Bool
  is_food_category none = false
  is_food_category (some c) = is_food_name c.name

  -- `item.product.category.name.toLowerCase() === 'food'`
  is_food_item : Db → OrderItem → Bool
  unfolding category_of is_food_category is_food_name
  is_food_item db it =
      is_food_category (category_of db (prisma.find_first (λ p. p.id == it.product_id) db.products))

  -- FOOD if some item is food, else GROCERY
  unfoldable pub type_of_order : Db → ℕ → OrderType
  unfolding is_food_item any
  type_of_order db order_id =
      if any (is_food_item db) (prisma.find_many (λ it. it.order_id == order_id) db.items)
      then OrderType.food
      else OrderType.grocery

  -- The orders that a batch includes.
  abbrev pub orders_in : Db → ℕ → List Order
  orders_in db batch_id = prisma.find_many (λ o. is_value o.delivery_batch_id batch_id) db.orders

  module _ (float : FloatOps) (s : Settings) where
    unfoldable pub join_batch : CityRules → Order → Batch → List Order → Exec BatchOutcome
    join_batch rules o b batch_orders = do
      now ← gets (λ w. w.now)
      update prisma orders (λ r. r.id == o.id) (λ r. record r { delivery_batch_id = some b.id })
      pure (record {
        batch_id = b.id;
        created = false;
        close = should_close_batch rules now b.created_at (batch_orders ++ o ∷ []);
      })

    unfoldable pub open_batch : Order → Exec BatchOutcome
    open_batch o = do
      now ← gets (λ w. w.now)
      b ← create prisma batches (λ id. record {
        id = id;
        deliverer_id = none;
        status = JobStatus.pending;
        created_at = now;
      })
      update prisma orders (λ r. r.id == o.id) (λ r. record r { delivery_batch_id = some b.id })
      pure (record { batch_id = b.id; created = true; close = false })

    -- The loop of assignToBatch over the open batches, oldest first.
    unfoldable pub try_batches : CityRules → Order → Db → List Batch → Exec BatchOutcome
    unfolding join_batch open_batch
    try_batches rules o db [] = open_batch o
    try_batches rules o db (b ∷ bs) =
        let rest = try_batches rules o db bs in
        if check_batch_eligibility float s rules o (orders_in db b.id)
        then join_batch rules o b (orders_in db b.id)
        else rest

    -- OrderService.assignToBatch: the advisory lock serialises the calls.
    unfoldable pub assign_to_batch : CityRules → Order → Exec BatchOutcome
    unfolding try_batches
    assign_to_batch rules o = do
      db ← gets (λ w. w.db)
      found ← find_many prisma batches (λ b. is_job b.status JobStatus.pending)
      try_batches rules o db (prisma.order_by (λ b. some b.created_at) found)

    -- The transaction of vendorMarkReady.
    unfoldable pub claim_ready : ℕ → OrderType → Exec (Order × BatchOutcome)
    unfolding assign_to_batch
    claim_ready order_id order_type = do
      now ← gets (λ w. w.now)
      claimed ←
          update_many prisma orders (λ o. o.id == order_id && is_readyable o.status)
            (λ o. record o {
              status = OrderStatus.ready_for_delivery;
              order_type = order_type;
              ready_at = some now;
            })
      throw_if (claimed == 0) conflict
      found ← find_first prisma orders (λ o. o.id == order_id)
      ready_order ← or_throw found record_missing
      batching ← assign_to_batch (city_rules s) ready_order
      record_event prisma EventEntityType.order order_id order_ready
          (order_payload order_id OrderStatus.ready_for_delivery)
      pure (ready_order, batching)

    -- What vendorMarkReady does after its transaction.
    unfoldable pub announce_ready : Order → Order × BatchOutcome → Exec Order
    unfolding after_batching
    announce_ready o (ready_order, batching) = do
      swallow (after_batching prisma (city_rules s) batching)
      emit (Emission.order_ready o.customer_id o.id)
      pure ready_order

    -- The transaction of vendorMarkReady, and what follows it.
    unfoldable pub mark_owned : ℕ → Order → Exec Order
    unfolding claim_ready announce_ready type_of_order
    mark_owned order_id o = do
      db ← gets (λ w. w.db)
      claimed ← prisma.transaction (claim_ready order_id (type_of_order db order_id))
      announce_ready o claimed

    -- OrderService.vendorMarkReady
    unfoldable pub vendor_mark_ready : ℕ → ℕ → Exec Order
    unfolding mark_owned
    vendor_mark_ready order_id user_id = do
      vendor ← find_first prisma vendors (λ v. v.user_id == user_id)
      found ← find_first prisma orders (λ o. o.id == order_id)
      o ← or_throw found not_found
      throw_if (not (owns vendor o)) forbidden
      mark_owned order_id o
