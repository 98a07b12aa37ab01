-- ===== src/Events/Examples.antt =====
-- Examples for the event log.
use mesyaf_market.Prelude.{refl}
use mesyaf_market.Database.Schema.{EventEntityType, OrderStatus}
use mesyaf_market.Database.Rows.{filter_rows}
use mesyaf_market.Database.Prisma.{reference, reference-Documented}
use mesyaf_market.Events.{record_event, order_created}
use mesyaf_market.Events.Laws.{IsProjected, record_event_keeps_timeline}
use mesyaf_market.Delivery.Jobs.{order_payload}
use mesyaf_market.Sample.{empty_world}

nothing-IsProjected : IsProjected empty_world
unfolding filter_rows
nothing-IsProjected = record { past = tt; rows = refl }

record_event_keeps_timeline_example :
    IsProjected
      (record_event reference EventEntityType.order 1 order_created
        (order_payload 1 OrderStatus.pending_vendor_confirmation)
        empty_world).1
record_event_keeps_timeline_example =
    record_event_keeps_timeline reference-Documented EventEntityType.order 1 order_created
      (order_payload 1 OrderStatus.pending_vendor_confirmation) empty_world nothing-IsProjected
