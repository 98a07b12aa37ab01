-- ===== src/Vendor/Orders/Decisions.antt =====
-- About vendorAcceptOrder and vendorRejectOrder of src/vendor/vendor.service.ts.
use mesyaf_market.Prelude.{◌≡◌, ◌≢◌, refl, ℕ, some, none, String, arith, ◌==◌}
use mesyaf_market.Database.Schema.{
  Event, EventEntityType, OrderStatus, Order, VendorProfile, OrderTimelineRow,
}
use mesyaf_market.Database.World.{World, Emission, Result, ok, err, plain}
use mesyaf_market.Database.Rows.{find_row, find-update_rows, find_row_holds, update_rows}
use mesyaf_market.Database.Prisma.{Prisma, Documented, Documented-reference, reference}
use mesyaf_market.Events.{record_event, parse_status, order_accepted, order_rejected, order_row}
use mesyaf_market.Events.Record.{
  record_event_lem, new_event, logged, on_order_timeline, found_on_timeline,
}
use mesyaf_market.Vendor.Orders.{decide, decision_payload, vendor_accept_order, vendor_reject_order}

-- The two answers of a vendor to an order.
pub data Decision : Type 0 where
  accept reject : Decision

abbrev pub decided : Decision → OrderStatus
decided accept = OrderStatus.vendor_accepted
decided reject = OrderStatus.vendor_rejected

abbrev pub answer : Prisma → Decision → ℕ → ℕ → World → Result Order × World
answer prisma accept = vendor_accept_order prisma
answer prisma reject = vendor_reject_order prisma

-- The order's row once its status is written.
found_decided :
    (order_id : ℕ) (s : OrderStatus) (w : World) (o : Order)
    → find_row (λ r. r.id == order_id) w.db.orders.rows ≡ some o
    → find_row
        (λ r. r.id == order_id)
        (update_rows (λ r. r.id == order_id) (λ r. record r { status = s }) w.db.orders.rows)
      ≡ some (record o { status = s })
found_decided order_id s w o f = ground (
  arith,
  find-update_rows (λ r. r.id == order_id) (λ r. r.id == order_id) (λ r. record r { status = s })
      (λ r. refl) w.db.orders.rows,
  find_row_holds (λ r. r.id == order_id) w.db.orders.rows o f,
)

abbrev written : ℕ → OrderStatus → World → World
written order_id s w = record w {
  db = record w.db {
    orders = record w.db.orders {
      rows = update_rows (λ r. r.id == order_id) (λ r. record r { status = s }) w.db.orders.rows;
    };
  };
}

abbrev event_of : Decision → String
event_of accept = order_accepted
event_of reject = order_rejected

-- The event of an answer.
abbrev accepted_event : Decision → ℕ → World → Event
accepted_event a order_id w =
    new_event EventEntityType.order order_id (event_of a) (decision_payload order_id (event_of a)) w

-- What `decide` does, by the rows that it reads.
decide_lem :
    (order_id user_id : ℕ) (s : OrderStatus) (t : String) (m : ℕ → ℕ → Emission) (w : World)
    (v : VendorProfile) (o : Order)
    → find_row (λ r. r.user_id == user_id) w.db.vendors.rows ≡ some v
    → find_row (λ r. r.id == order_id) w.db.orders.rows ≡ some o
    → o.vendor_id ≡ v.id
    → o.status ≡ OrderStatus.pending_vendor_confirmation
    → ((decide reference order_id user_id s t m w).0 ≡ ok (record o { status = s }))
      × (find_row
            (λ r. r.id == order_id)
            (decide reference order_id user_id s t m w).1.db.orders.rows
          ≡ some (record o { status = s }))
      × ((decide reference order_id user_id s t m w).1.db.vendors ≡ w.db.vendors)
      × ((decide reference order_id user_id s t m w).1.db.order_timeline
          ≡ on_order_timeline
              (new_event EventEntityType.order order_id t (decision_payload order_id t) w)
              w.db.order_timeline)
unfolding decide
decide_lem order_id user_id s t m w v o fv fo own p = (
  ground (arith, recorded),
  ground (arith, recorded, found_decided order_id s w o fo),
  ground (arith, recorded),
  ground (arith, recorded),
)
  where
    recorded :
        record_event reference EventEntityType.order order_id t
          (decision_payload order_id t)
          (written order_id s w)
        ≡ (
          ok (new_event EventEntityType.order order_id t (decision_payload order_id t) w),
          logged
              (new_event EventEntityType.order order_id t (decision_payload order_id t) w)
              (written order_id s w),
        )
    recorded =
        record_event_lem EventEntityType.order order_id t (decision_payload order_id t)
          (written order_id s w)

refused_lem :
    (order_id user_id : ℕ) (s : OrderStatus) (t : String) (m : ℕ → ℕ → Emission) (w : World)
    (v : VendorProfile) (o : Order)
    → find_row (λ r. r.user_id == user_id) w.db.vendors.rows ≡ some v
    → find_row (λ r. r.id == order_id) w.db.orders.rows ≡ some o
    → o.vendor_id ≡ v.id
    → o.status ≢ OrderStatus.pending_vendor_confirmation
    → decide reference order_id user_id s t m w ≡ (err plain, w)
unfolding decide
refused_lem order_id user_id s t m w v o fv fo own p = ground arith

-- `decide` is what each answer runs.
answer_lem :
    (a : Decision) (order_id user_id : ℕ) (w : World) (v : VendorProfile) (o : Order)
    → find_row (λ r. r.user_id == user_id) w.db.vendors.rows ≡ some v
    → find_row (λ r. r.id == order_id) w.db.orders.rows ≡ some o
    → o.vendor_id ≡ v.id
    → o.status ≡ OrderStatus.pending_vendor_confirmation
    → ((answer reference a order_id user_id w).0 ≡ ok (record o { status = decided a }))
      × (find_row (λ r. r.id == order_id) (answer reference a order_id user_id w).1.db.orders.rows
          ≡ some (record o { status = decided a }))
      × ((answer reference a order_id user_id w).1.db.vendors ≡ w.db.vendors)
      × ((answer reference a order_id user_id w).1.db.order_timeline
          ≡ on_order_timeline (accepted_event a order_id w) w.db.order_timeline)
unfolding vendor_accept_order vendor_reject_order
answer_lem accept order_id user_id w v o =
    decide_lem order_id user_id OrderStatus.vendor_accepted order_accepted Emission.order_accepted w
      v o
answer_lem reject order_id user_id w v o =
    decide_lem order_id user_id OrderStatus.vendor_rejected order_rejected Emission.order_rejected w
      v o

answer_refused :
    (a : Decision) (order_id user_id : ℕ) (w : World) (v : VendorProfile) (o : Order)
    → find_row (λ r. r.user_id == user_id) w.db.vendors.rows ≡ some v
    → find_row (λ r. r.id == order_id) w.db.orders.rows ≡ some o
    → o.vendor_id ≡ v.id
    → o.status ≢ OrderStatus.pending_vendor_confirmation
    → answer reference a order_id user_id w ≡ (err plain, w)
unfolding vendor_accept_order vendor_reject_order
answer_refused accept order_id user_id w v o =
    refused_lem order_id user_id OrderStatus.vendor_accepted order_accepted Emission.order_accepted
      w v o
answer_refused reject order_id user_id w v o =
    refused_lem order_id user_id OrderStatus.vendor_rejected order_rejected Emission.order_rejected
      w v o

decided-ne-pending : (a : Decision) → decided a ≢ OrderStatus.pending_vendor_confirmation
decided-ne-pending accept h = cc
decided-ne-pending reject h = cc

answer_final :
    (a b : Decision) (order_id user_id : ℕ) (w : World) (v : VendorProfile) (o : Order)
    → find_row (λ r. r.user_id == user_id) w.db.vendors.rows ≡ some v
    → find_row (λ r. r.id == order_id) w.db.orders.rows ≡ some o
    → o.vendor_id ≡ v.id
    → o.status ≡ OrderStatus.pending_vendor_confirmation
    → let w' = (answer reference a order_id user_id w).1 in
      ((answer reference a order_id user_id w).0 ≡ ok (record o { status = decided a }))
      × (find_row (λ r. r.id == order_id) w'.db.orders.rows
          ≡ some (record o { status = decided a }))
      × (answer reference b order_id user_id w' ≡ (err plain, w'))
answer_final a b order_id user_id w v o fv fo own p =
    let (r, f, vs, _) = answer_lem a order_id user_id w v o fv fo own p in
    (
      r,
      f,
      answer_refused b order_id user_id (answer reference a order_id user_id w).1 v
          (record o { status = decided a }) (rw vs fv) f own (decided-ne-pending a),
    )

timeline_loses_status :
    (a : Decision) (order_id user_id : ℕ) (w : World) (v : VendorProfile) (o : Order)
    → find_row (λ r. r.user_id == user_id) w.db.vendors.rows ≡ some v
    → find_row (λ r. r.id == order_id) w.db.orders.rows ≡ some o
    → o.vendor_id ≡ v.id
    → o.status ≡ OrderStatus.pending_vendor_confirmation
    → find_row (λ r. r.source_event_id == w.db.events.next_id) w.db.order_timeline.rows ≡ none
    → (row : OrderTimelineRow) × (find_row
          (λ r. r.source_event_id == w.db.events.next_id)
          (answer reference a order_id user_id w).1.db.order_timeline.rows
        ≡ some row)
      × (row.order_id ≡ order_id)
      × (row.status ≡ none)
unfolding order_row parse_status
timeline_loses_status a order_id user_id w v o fv fo own p fresh =
    let e = accepted_event a order_id w in
    let (_, _, _, t) = answer_lem a order_id user_id w v o fv fo own p in
    (
      order_row e w.db.order_timeline.next_id,
      rw t (found_on_timeline e w.db.order_timeline refl fresh),
      refl,
      unread a,
    )
  where
    unread :
        (b : Decision)
        → (order_row (accepted_event b order_id w) w.db.order_timeline.next_id).status ≡ none
    unread accept = refl
    unread reject = refl

module _ {prisma : Prisma} (d : Documented prisma) where
  -- A vendor decides on an own order that is pending: the order gets the status of the answer,
  -- and every later answer fails and changes nothing.
  pub decision_is_final :
      (a b : Decision) (order_id user_id : ℕ) (w : World) (v : VendorProfile) (o : Order)
      → prisma.find_first (λ r. r.user_id == user_id) w.db.vendors ≡ some v
      → prisma.find_first (λ r. r.id == order_id) w.db.orders ≡ some o
      → o.vendor_id ≡ v.id
      → o.status ≡ OrderStatus.pending_vendor_confirmation
      → let w' = (answer prisma a order_id user_id w).1 in
        ((answer prisma a order_id user_id w).0 ≡ ok (record o { status = decided a }))
        × (prisma.find_first (λ r. r.id == order_id) w'.db.orders
            ≡ some (record o { status = decided a }))
        × (answer prisma b order_id user_id w' ≡ (err plain, w'))
  decision_is_final = rw (Documented-reference d) answer_final

  -- The timeline row of a vendor's decision on an own pending order has no status, where the
  -- timeline has no row of the coming event yet: the payload has the event's type for its status.
  decision_without_status :
      (a : Decision) (order_id user_id : ℕ) (w : World) (v : VendorProfile) (o : Order)
      → prisma.find_first (λ r. r.user_id == user_id) w.db.vendors ≡ some v
      → prisma.find_first (λ r. r.id == order_id) w.db.orders ≡ some o
      → o.vendor_id ≡ v.id
      → o.status ≡ OrderStatus.pending_vendor_confirmation
      → prisma.find_first (λ r. r.source_event_id == w.db.events.next_id) w.db.order_timeline ≡ none
      → (row : OrderTimelineRow) × (prisma.find_first
            (λ r. r.source_event_id == w.db.events.next_id)
            (answer prisma a order_id user_id w).1.db.order_timeline
          ≡ some row)
        × (row.order_id ≡ order_id)
        × (row.status ≡ none)
  decision_without_status = rw (Documented-reference d) timeline_loses_status
