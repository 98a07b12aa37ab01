-- ===== src/Order/Ready/Examples.antt =====
-- Examples for marking an order ready.
use mesyaf_market.Prelude.{◌≡◌, refl, some, any, arith, [], ◌∷◌}
use mesyaf_market.Database.Schema.{Order, OrderStatus}
use mesyaf_market.Database.World.{World, Error, ok, err}
use mesyaf_market.Database.Rows.{find_row, count_rows, update_rows, filter_rows, sort_rows}
use mesyaf_market.Database.Prisma.{reference, reference-Documented}
use mesyaf_market.Events.{record_event, project_order, project_job, order_row, job_row}
use mesyaf_market.Order.Closing.{after_batching}
use mesyaf_market.Order.Ready.{
  mark_owned, announce_ready, vendor_mark_ready, claim_ready, assign_to_batch, try_batches,
  open_batch, type_of_order,
}
use mesyaf_market.Order.Ready.Claimable.{is_claimable}
use mesyaf_market.Order.Ready.Claims.{mark_ready_once}
use mesyaf_market.Order.Ready.Small.{IsSmall}
use mesyaf_market.Order.Ready.Bounded.{vendor_mark_ready-IsSmall}
use mesyaf_market.Sample.{table, collecting, placed, placed_order, settings, whole}

abbrev ready_order : Order
ready_order = record placed_order {
  status = OrderStatus.ready_for_delivery;
  ready_at = some 1000000;
}

marked : (vendor_mark_ready reference whole settings 1 2 placed).0 ≡ ok ready_order
unfolding vendor_mark_ready mark_owned announce_ready claim_ready assign_to_batch try_batches
    open_batch type_of_order after_batching record_event project_order project_job order_row job_row
    find_row count_rows update_rows filter_rows sort_rows any
marked = refl

mark_ready_once_example :
    let w' = (vendor_mark_ready reference whole settings 1 2 placed).1 in
    (reference.count (is_claimable 1) w'.db.orders ≡ 0)
    × ((x : Error) × (vendor_mark_ready reference whole settings 1 2 w' ≡ (err x, w')))
mark_ready_once_example =
    mark_ready_once reference-Documented whole settings 1 2 2 placed ready_order marked

-- A batch with an order, and another order that waits for its vendor.
abbrev joining : World
joining = record collecting {
  db = record collecting.db {
    orders = table (
        record placed_order { status = OrderStatus.ready_for_delivery; delivery_batch_id = some 1 }
        ∷ record placed_order { id = 2 }
        ∷ []);
  };
}

joining-IsSmall : IsSmall joining.db
unfolding count_rows
joining-IsSmall =
    ((λ k. ground arith), (λ i. ground arith), (λ k h. ground arith), (omega arith, tt))

vendor_mark_ready-IsSmall_example :
    IsSmall (vendor_mark_ready reference whole settings 2 2 joining).1.db
vendor_mark_ready-IsSmall_example =
    vendor_mark_ready-IsSmall reference-Documented whole settings 2 2 joining joining-IsSmall
