-- ===== src/Access/Examples.antt =====
-- Examples for the checks on users.
use mesyaf_market.Prelude.{◌≡◌, ◌⊎◌, refl, some, [], ◌==◌}
use mesyaf_market.Database.Schema.{Role}
use mesyaf_market.Database.World.{ok}
use mesyaf_market.Database.Rows.{find_row, filter_rows, sort_rows}
use mesyaf_market.Database.Prisma.{reference, reference-Documented}
use mesyaf_market.Access.{get_order_timeline}
use mesyaf_market.Access.Laws.{order_timeline_readers}
use mesyaf_market.Sample.{placed, placed_order, signed_in}

the_order : reference.find_first (λ r. r.id == 1) placed.db.orders ≡ some placed_order
unfolding find_row
the_order = refl

shown : (get_order_timeline reference 1 (signed_in Role.customer) placed).0 ≡ ok []
unfolding get_order_timeline find_row filter_rows sort_rows
shown = refl

order_timeline_readers_example :
    ((Role.customer ≡ Role.admin)
      ⊎ ((Role.customer ≡ Role.customer)
          × ((signed_in Role.customer).id ≡ placed_order.customer_id)))
    × ([]
        ≡ reference.order_by
            (λ r. some r.occurred_at)
            (reference.find_many (λ r. r.order_id == 1) placed.db.order_timeline))
order_timeline_readers_example =
    order_timeline_readers reference-Documented 1 (signed_in Role.customer) placed placed_order []
      the_order shown
