-- ===== src/Session/Reconnect.antt =====
-- src/common/websocket/reconnect.service.ts: what a client is told of its work on a connection.
use mesyaf_market.Prelude.{
  ℤ, ℕ, Bool, Option, none, some, List, [], ◌∷◌, map, ◌&&◌, ◌||◌, ◌==◌, is_value, String,
}
use mathlib.Core.Option
use mesyaf_market.Database.Schema.{
  Float, OrderStatus, JobStatus, Order, OrderItem, Job, DropOff, is_order, is_job,
}
use mesyaf_market.Database.World.{Db, Exec, pure, gets, ◌>>=◌}
use mesyaf_market.Database.Prisma.{Prisma, orders, jobs, find_first, find_many}

-- ReconnectEnvelope
pub record Envelope (T : Type 0) : Type 0 where
  pub snapshot_at : ℕ
  pub contents : Option T

pub record CustomerContext : Type 0 where
  pub order_id : ℕ
  pub status : OrderStatus
  pub job_id : Option ℕ

pub record Stop : Type 0 where
  pub id : ℕ
  pub status : JobStatus
  pub lat : Option Float
  pub lng : Option Float

pub record DelivererContext : Type 0 where
  pub job_id : ℕ
  pub status : JobStatus
  pub assigned_at : ℕ
  pub total_orders : Option ℕ
  pub stops : List Stop

pub record VendorItem : Type 0 where
  pub product_id : ℕ
  pub name : Option String
  pub quantity : ℤ

pub record VendorOrder : Type 0 where
  pub order_id : ℕ
  pub status : OrderStatus
  pub created_at : ℕ
  pub items : List VendorItem

abbrev pub is_active_order : OrderStatus → Bool
is_active_order s =
    is_order s OrderStatus.vendor_accepted
    || is_order s OrderStatus.ready_for_delivery
    || is_order s OrderStatus.waiting_for_deliverer
    || is_order s OrderStatus.in_progress

abbrev pub is_active_job : JobStatus → Bool
is_active_job s = is_job s JobStatus.assigned || is_job s JobStatus.in_progress

abbrev pub is_vendor_order : OrderStatus → Bool
is_vendor_order s =
    is_order s OrderStatus.pending_vendor_confirmation
    || is_order s OrderStatus.vendor_accepted
    || is_order s OrderStatus.ready_for_delivery

abbrev customer_context : Order → CustomerContext
customer_context o = record { order_id = o.id; status = o.status; job_id = o.delivery_job_id }

abbrev stop_of : DropOff → Stop
stop_of s = record { id = s.id; status = s.status; lat = s.dropoff_lat; lng = s.dropoff_lng }

abbrev deliverer_context : List DropOff → Job → DelivererContext
deliverer_context stops j = record {
  job_id = j.id;
  status = j.status;
  assigned_at = j.assigned_at;
  total_orders = j.total_orders;
  stops = map stop_of stops;
}

abbrev non_empty : List VendorOrder → Option (List VendorOrder)
non_empty [] = none
non_empty (o ∷ os) = some (o ∷ os)

module _ (prisma : Prisma) where
  -- ReconnectService.getCustomerContext
  unfoldable pub get_customer_context : ℕ → Exec (Envelope CustomerContext)
  get_customer_context customer_id = do
    active ←
        find_first prisma orders (λ o. o.customer_id == customer_id && is_active_order o.status)
    now ← gets (λ w. w.now)
    pure (record { snapshot_at = now; contents = Option.map customer_context active })

  abbrev stops_of : Db → Job → List DropOff
  stops_of db j =
      prisma.order_by (λ s. some s.sequence) (prisma.find_many (λ s. s.job_id == j.id) db.drop_offs)

  -- ReconnectService.getDelivererContext
  unfoldable pub get_deliverer_context : ℕ → Exec (Envelope DelivererContext)
  get_deliverer_context deliverer_id = do
    active ←
        find_first prisma jobs (λ j. is_value j.deliverer_id deliverer_id && is_active_job j.status)
    db ← gets (λ w. w.db)
    now ← gets (λ w. w.now)
    pure (record {
      snapshot_at = now;
      contents = Option.map (λ j. deliverer_context (stops_of db j) j) active;
    })

  abbrev item_of : Db → OrderItem → VendorItem
  item_of db it = record {
    product_id = it.product_id;
    name = Option.map (λ p. p.name) (prisma.find_first (λ p. p.id == it.product_id) db.products);
    quantity = it.quantity;
  }

  abbrev vendor_order : Db → Order → VendorOrder
  vendor_order db o = record {
    order_id = o.id;
    status = o.status;
    created_at = o.created_at;
    items = map (item_of db) (prisma.find_many (λ it. it.order_id == o.id) db.items);
  }

  -- ReconnectService.getVendorContext
  unfoldable pub get_vendor_context : ℕ → Exec (Envelope (List VendorOrder))
  get_vendor_context vendor_id = do
    found ← find_many prisma orders (λ o. o.vendor_id == vendor_id && is_vendor_order o.status)
    db ← gets (λ w. w.db)
    now ← gets (λ w. w.now)
    pure (record {
      snapshot_at = now;
      contents = non_empty (map (vendor_order db) (prisma.order_by (λ o. some o.created_at) found));
    })
