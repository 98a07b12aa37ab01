-- ===== src/Order/Create/Examples.antt =====
-- An example for placing an order.
use mesyaf_market.Prelude.{◌≡◌, refl, ◌⊎◌, none, some, [], ◌∷◌, false, true, pos, negsuc}
use mesyaf_market.Database.Schema.{Order, Product, Condition}
use mesyaf_market.Database.World.{Error, ok, err, not_found, foreign_key_violation, World}
use mesyaf_market.Database.Rows.{find_row}
use mesyaf_market.Database.Prisma.{reference, reference-Documented}
use mesyaf_market.Order.Create.{OrderDto, create_order}
use mesyaf_market.Order.Create.Placed.{IsPlaced, can_be_placed, create_order-IsPlaced}
use mesyaf_market.Sample.{placed, table}

-- Two loaves, and one of them less by another line: the quantity may be below zero.
abbrev basket : OrderDto
basket = record {
  customer_address = some "Home";
  customer_lat = some 7;
  customer_lng = some 8;
  items =
      record { product_id = 1; quantity = pos 2; price = 3 }
      ∷ record { product_id = 1; quantity = negsuc 0; price = 3 }
      ∷ [];
  estimated_prep_time = none;
  delivery_fee = none;
}

abbrev bread : Product
bread = record {
  id = 1;
  vendor_id = 1;
  category_id = 1;
  name = "Bread";
  description = none;
  price = 3;
  discount_price = none;
  stock_quantity = 5;
  condition = Condition.new;
  is_available = true;
  tags = [];
  created_at = 50;
}

abbrev bakery : World
bakery = record placed { db = record placed.db { products = table (bread ∷ []) } }

create_order-IsPlaced_example :
    ((o : Order) × (can_be_placed reference basket 1 1 bakery ≡ true)
      × ((create_order reference basket 1 1 bakery).0 ≡ ok o)
      × IsPlaced basket 1 1 bakery o (create_order reference basket 1 1 bakery).1)
    ⊎ ((x : Error) × (can_be_placed reference basket 1 1 bakery ≡ false)
        × (create_order reference basket 1 1 bakery ≡ (err x, bakery)))
create_order-IsPlaced_example = create_order-IsPlaced reference-Documented basket 1 1 bakery

can_be_placed_there : can_be_placed reference basket 1 1 bakery ≡ true
unfolding find_row
can_be_placed_there = refl

unknown_product : create_order reference basket 1 1 placed ≡ (err foreign_key_violation, placed)
unfolding create_order find_row
unknown_product = refl

unknown_vendor : create_order reference basket 9 1 placed ≡ (err not_found, placed)
unfolding create_order find_row
unknown_vendor = refl
