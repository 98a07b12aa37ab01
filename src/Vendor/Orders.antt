-- ===== src/Vendor/Orders.antt =====
-- src/vendor/vendor.service.ts: a vendor accepts or rejects an order.
pub mod Decisions
mod Examples
use mesyaf_market.Prelude.{ℕ, Option, none, some, not, ◌==◌, if◌then◌else◌, String}
use mesyaf_market.Database.Schema.{
  OrderStatus, EventEntityType, VendorProfile, Order, Payload, is_order,
}
use mesyaf_market.Database.World.{
  Emission, Exec, pure, throw, throw_if, or_throw, emit, ◌>>=◌, ◌>>◌, forbidden, plain,
}
use mesyaf_market.Database.Prisma.{Prisma, vendors, orders, find_first, update}
use mesyaf_market.Events.{order_accepted, order_rejected, no_keys, record_event}

-- `!order || order.vendorId !== vendor.id`
abbrev check_owner : Option Order → VendorProfile → Exec Order
check_owner none v = throw forbidden
check_owner (some o) v = if o.vendor_id == v.id then pure o else throw forbidden

-- The payload has the type of the event for its status.
abbrev pub decision_payload : ℕ → String → Payload
decision_payload order_id event_type = record no_keys {
  order_id = some order_id;
  status = some event_type;
}

module _ (prisma : Prisma) where
  -- What vendorAcceptOrder and vendorRejectOrder share: a new status, an event and a message.
  decide : ℕ → ℕ → OrderStatus → String → (ℕ → ℕ → Emission) → Exec Order
  decide order_id user_id status event_type message = do
    vendor ← find_first prisma vendors (λ v. v.user_id == user_id)
    v ← or_throw vendor plain
    found ← find_first prisma orders (λ o. o.id == order_id)
    o ← check_owner found v
    throw_if (not (is_order o.status OrderStatus.pending_vendor_confirmation)) plain
    updated ← update prisma orders (λ r. r.id == order_id) (λ r. record r { status = status })
    record_event prisma EventEntityType.order order_id event_type
        (decision_payload order_id event_type)
    emit (message o.customer_id order_id)
    pure updated

  -- VendorService.vendorAcceptOrder
  unfoldable pub vendor_accept_order : ℕ → ℕ → Exec Order
  unfolding decide
  vendor_accept_order order_id user_id =
      decide order_id user_id OrderStatus.vendor_accepted order_accepted Emission.order_accepted

  -- VendorService.vendorRejectOrder
  unfoldable pub vendor_reject_order : ℕ → ℕ → Exec Order
  unfolding decide
  vendor_reject_order order_id user_id =
      decide order_id user_id OrderStatus.vendor_rejected order_rejected Emission.order_rejected
