-- ===== src/Vendor/Orders/Examples.antt =====
-- Examples for the vendors' answers and profiles.
use mesyaf_market.Prelude.{◌≡◌, refl, some, ◌==◌}
use mesyaf_market.Database.World.{ok, err, plain}
use mesyaf_market.Database.Rows.{find_row}
use mesyaf_market.Database.Prisma.{reference, reference-Documented}
use mesyaf_market.Vendor.Orders.Decisions.{accept, reject, answer, decided, decision_is_final}
use mesyaf_market.Sample.{placed, placed_order, shop}

the_shop : reference.find_first (λ r. r.user_id == 2) placed.db.vendors ≡ some shop
unfolding find_row
the_shop = refl

the_order : reference.find_first (λ r. r.id == 1) placed.db.orders ≡ some placed_order
unfolding find_row
the_order = refl

decision_is_final_example :
    let w' = (answer reference accept 1 2 placed).1 in
    ((answer reference accept 1 2 placed).0 ≡ ok (record placed_order { status = decided accept }))
    × (reference.find_first (λ r. r.id == 1) w'.db.orders
        ≡ some (record placed_order { status = decided accept }))
    × (answer reference reject 1 2 w' ≡ (err plain, w'))
decision_is_final_example =
    decision_is_final reference-Documented accept reject 1 2 placed shop placed_order the_shop
      the_order refl refl
