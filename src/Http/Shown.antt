-- ===== src/Http/Shown.antt =====
-- About GET users/orders of src/users/users.controller.ts.
use mesyaf_market.Prelude.{◌≡◌, refl, Option, some, List, [], ◌∷◌, map}
use mesyaf_market.Database.Schema.{Order, OrderStatus}
use mesyaf_market.Database.World.{Db, World, ok}
use mesyaf_market.Database.Prisma.{Prisma}
use mesyaf_market.Access.{AuthenticatedUser}
use mesyaf_market.Users.{OrderWithItems, with_items, status_matches, get_user_orders}
use mesyaf_market.Http.Guards.{signed_in}
use mesyaf_market.Http.Accounts.{read_own_orders}

order-with_items :
    (prisma : Prisma) (db : Db) (os : List Order)
    → map (λ (r : OrderWithItems). r.order) (map (with_items prisma db) os) ≡ os
order-with_items prisma db [] = refl
order-with_items prisma db (o ∷ os) = rw (order-with_items prisma db os) refl

-- GET users/orders answers every user who is signed in with the orders of all customers in the
-- status asked for, and changes nothing.
pub orders_are_shown_to_all :
    (prisma : Prisma) (user : AuthenticatedUser) (status : Option OrderStatus) (w : World)
    → (os : List OrderWithItems) × (read_own_orders prisma (some user) status w ≡ (ok os, w))
      × (map (λ (r : OrderWithItems). r.order) os
          ≡ prisma.find_many (λ o. status_matches status o.status) w.db.orders)
unfolding read_own_orders get_user_orders signed_in
orders_are_shown_to_all prisma user status w =
    let rows = prisma.find_many (λ o. status_matches status o.status) w.db.orders in
    (map (with_items prisma w.db) rows, refl, order-with_items prisma w.db rows)
