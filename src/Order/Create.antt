-- ===== src/Order/Create.antt =====
-- src/order/order.service.ts: createOrder.
pub mod Placed
mod Examples
use mesyaf_market.Prelude.{
  ℕ, ℤ, Bool, Option, none, List, [], ◌∷◌, ◌&&◌, not, ◌==◌, String, is_some, if◌then◌else◌,
}
use mesyaf_market.Database.Schema.{
  Float, OrderStatus, OrderType, EventEntityType, Order, VendorProfile,
}
use mesyaf_market.Database.World.{
  Emission, Exec, pure, throw, foreign_key_violation, throw_if, or_throw, gets, emit, ◌>>=◌, ◌>>◌,
  not_found, forbidden,
}
use mesyaf_market.Database.Prisma.{
  Prisma, Model, users, products, vendors, orders, items, find_first, create,
}
use mesyaf_market.Events.{order_created, record_event}
use mesyaf_market.Delivery.Jobs.{order_payload}

-- CreateOrderDto: `price` is the client's.
pub record ItemDto : Type 0 where
  pub product_id : ℕ
  pub quantity : ℤ
  pub price : Float

pub record OrderDto : Type 0 where
  pub customer_address : Option String
  pub customer_lat : Option Float
  pub customer_lng : Option Float
  pub items : List ItemDto
  pub estimated_prep_time : Option ℤ
  pub delivery_fee : Option ℤ

-- `!vendor.isActive || !vendor.isVerified` is refused.
abbrev pub is_open : VendorProfile → Bool
is_open v = v.is_active && v.is_verified

abbrev pub new_order : OrderDto → VendorProfile → ℕ → ℕ → ℕ → ℕ → Order
new_order dto v vendor_id customer_id now id = record {
  id = id;
  vendor_id = vendor_id;
  customer_id = customer_id;
  status = OrderStatus.pending_vendor_confirmation;
  order_type = OrderType.empty;
  estimated_prep_time = dto.estimated_prep_time;
  ready_at = none;
  delivered_at = none;
  created_at = now;
  delivery_fee = dto.delivery_fee;
  deliverer_id = none;
  delivery_job_id = none;
  delivery_batch_id = none;
  vendor_lat = v.latitude;
  vendor_lng = v.longitude;
  customer_address = dto.customer_address;
  customer_lat = dto.customer_lat;
  customer_lng = dto.customer_lng;
}

module _ (prisma : Prisma) where
  -- A foreign key: the database refuses a row that names one that is not there.
  unfoldable pub refer_to : {R : Type 0} → Model R → (R → Bool) → Exec (Unit {0})
  refer_to model test = do
    found ← find_first prisma model test
    if is_some found then pure tt else throw foreign_key_violation

  unfoldable pub create_items : ℕ → List ItemDto → Exec (Unit {0})
  unfolding refer_to
  create_items order_id [] = pure tt
  create_items order_id (it ∷ its) =
      refer_to products (λ p. p.id == it.product_id)
      >> create prisma items (λ id. record {
        id = id;
        order_id = order_id;
        product_id = it.product_id;
        quantity = it.quantity;
        price = it.price;
      })
      >> create_items order_id its

  unfoldable pub place_order : OrderDto → VendorProfile → ℕ → ℕ → Exec Order
  unfolding create_items refer_to
  place_order dto v vendor_id customer_id = do
    now ← gets (λ w. w.now)
    refer_to users (λ u. u.id == customer_id)
    o ← create prisma orders (new_order dto v vendor_id customer_id now)
    create_items o.id dto.items
    record_event prisma EventEntityType.order o.id order_created
        (order_payload o.id OrderStatus.pending_vendor_confirmation)
    pure o

  -- OrderService.createOrder
  unfoldable pub create_order : OrderDto → ℕ → ℕ → Exec Order
  unfolding place_order
  create_order dto vendor_id customer_id = do
    found ← find_first prisma vendors (λ v. v.id == vendor_id)
    vendor ← or_throw found not_found
    throw_if (not (is_open vendor)) forbidden
    o ← prisma.transaction (place_order dto vendor vendor_id customer_id)
    emit (Emission.order_new o.vendor_id o.id)
    pure o
