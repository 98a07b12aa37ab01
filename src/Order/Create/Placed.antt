-- ===== src/Order/Create/Placed.antt =====
-- About createOrder of src/order/order.service.ts: what a placed order leaves in the tables.
use mesyaf_market.Prelude.{
  ℕ, ℤ, is_some, ◌&&◌, arith, ◌≡◌, refl, ◌⊎◌, inl, inr, Bool, true, false, Option, none, some, List,
  [], ◌∷◌, ◌++◌, map, ◌==◌, Option-cases, Bool-cases, sym, ◌∙◌, ap,
}
use mathlib.Core.List.{append-nil, append_assoc}
use mesyaf_market.Database.Schema.{
  Float, OrderStatus, EventEntityType, Order, OrderItem, VendorProfile, Product, User,
}
use mesyaf_market.Database.World.{
  World, Table, Error, Emission, ok, err, not_found, forbidden, foreign_key_violation,
}
use mesyaf_market.Database.Rows.{find_row}
use mesyaf_market.Database.Prisma.{Prisma, Documented, Documented-reference, reference, inserted}
use mesyaf_market.Events.{order_created}
use mesyaf_market.Events.Record.{record_event_lem, new_event}
use mesyaf_market.Delivery.Jobs.{order_payload}
use mesyaf_market.Order.Create.{
  ItemDto, OrderDto, is_open, new_order, refer_to, create_items, place_order, create_order,
}

-- What an item says: the order, the product, how many, and the price.
abbrev Line : Type 0
Line = ℕ × ℕ × ℤ × Float

abbrev pub line : OrderItem → Line
line r = (r.order_id, r.product_id, r.quantity, r.price)

abbrev pub wanted : ℕ → ItemDto → Line
wanted order_id it = (order_id, it.product_id, it.quantity, it.price)

abbrev put_items : Table OrderItem → World → World
put_items t w = record w { db = record w.db { items = t } }

abbrev item_of : ℕ → ItemDto → ℕ → OrderItem
item_of order_id it id = record {
  id = id;
  order_id = order_id;
  product_id = it.product_id;
  quantity = it.quantity;
  price = it.price;
}

abbrev with_item : ℕ → ItemDto → World → Table OrderItem
with_item order_id it w = inserted (item_of order_id it) w.db.items

-- Whether the products of the items are all there.
abbrev pub are_products : Prisma → Table Product → List ItemDto → Bool
are_products prisma t [] = true
are_products prisma t (it ∷ its) =
    is_some (prisma.find_first (λ p. p.id == it.product_id) t) && are_products prisma t its

items_refused :
    (order_id : ℕ) (its : List ItemDto) (w : World)
    → are_products reference w.db.products its ≡ false
    → (t : Table OrderItem) × (create_items reference order_id its w
        ≡ (err foreign_key_violation, put_items t w))
unfolding create_items refer_to
items_refused order_id [] w h = cc
items_refused order_id (it ∷ its) w h =
    elim (Option-cases (find_row (λ p. p.id == it.product_id) w.db.products.rows)) [
      | inl f ↦ (w.db.items, rw f refl)
      | inr (product, f) ↦
          let (t, run) =
            items_refused order_id its (put_items (with_item order_id it w) w)
              (ground (arith, h, f)) in
          (t, rw f run)
    ]

items_added :
    (order_id : ℕ) (its : List ItemDto) (w : World)
    → are_products reference w.db.products its ≡ true
    → (t : Table OrderItem) × (create_items reference order_id its w ≡ (ok tt, put_items t w))
      × ((added : List OrderItem) × (t.rows ≡ w.db.items.rows ++ added)
          × (map line added ≡ map (wanted order_id) its))
unfolding create_items refer_to
items_added order_id [] w h = (w.db.items, refl, ([], sym (append-nil w.db.items.rows), refl))
items_added order_id (it ∷ its) w h =
    elim (Option-cases (find_row (λ p. p.id == it.product_id) w.db.products.rows)) [
      | inl f ↦ ground (arith, h, f)
      | inr (product, f) ↦
          let (t, run, (added, rows, lines)) =
            items_added order_id its (put_items (with_item order_id it w) w)
              (ground (arith, h, f)) in
          (
            t,
            rw f run,
            (
              item_of order_id it w.db.items.next_id ∷ added,
              rows
                  ∙ append_assoc w.db.items.rows (item_of order_id it w.db.items.next_id ∷ [])
                      added,
              ap (wanted order_id it ∷◌) lines,
            ),
          )
    ]

-- Whether a query found a vendor that takes orders.
abbrev pub is_found_open : Option VendorProfile → Bool
is_found_open none = false
is_found_open (some v) = is_open v

-- The vendor takes orders, and the customer and the products are there.
abbrev pub can_be_placed : Prisma → OrderDto → ℕ → ℕ → World → Bool
can_be_placed prisma dto vendor_id customer_id w =
    is_found_open (prisma.find_first (λ v. v.id == vendor_id) w.db.vendors)
    && is_some (prisma.find_first (λ u. u.id == customer_id) w.db.users)
    && are_products prisma w.db.products dto.items

module _ (dto : OrderDto) (vendor_id customer_id : ℕ) (w : World) where
  -- What a placed order leaves: an open vendor, the new row, its items, its event, and the message.
  pub record IsPlaced (o : Order) (w' : World) : Type 0 where
    pub vendor : VendorProfile
    pub found : find_row (λ v. v.id == vendor_id) w.db.vendors.rows ≡ some vendor
    pub trusted : is_open vendor ≡ true
    pub waits : o.status ≡ OrderStatus.pending_vendor_confirmation
    pub by_vendor : o.vendor_id ≡ vendor_id
    pub by_customer : o.customer_id ≡ customer_id
    pub from_lat : o.vendor_lat ≡ vendor.latitude
    pub from_lng : o.vendor_lng ≡ vendor.longitude
    pub rows : w'.db.orders.rows ≡ w.db.orders.rows ++ o ∷ []
    pub added : List OrderItem
    pub item_rows : w'.db.items.rows ≡ w.db.items.rows ++ added
    pub lines : map line added ≡ map (wanted o.id) dto.items
    pub event :
        w'.db.events.rows
        ≡ w.db.events.rows
          ++ new_event EventEntityType.order o.id order_created (order_payload o.id o.status) w ∷ []
    pub sent : w'.sent ≡ w.sent ++ Emission.order_new vendor_id o.id ∷ []

-- The world when the order's row is there, and its items are not.
abbrev with_order : OrderDto → VendorProfile → ℕ → ℕ → World → World
with_order dto v vendor_id customer_id w = record w {
  db = record w.db { orders = inserted (new_order dto v vendor_id customer_id w.now) w.db.orders };
}

open_order-IsPlaced :
    (dto : OrderDto) (vendor_id customer_id : ℕ) (w : World) (v : VendorProfile) (u : User)
    → find_row (λ v. v.id == vendor_id) w.db.vendors.rows ≡ some v
    → is_open v ≡ true
    → find_row (λ u. u.id == customer_id) w.db.users.rows ≡ some u
    → are_products reference w.db.products dto.items ≡ true
    → (o : Order) × ((create_order reference dto vendor_id customer_id w).0 ≡ ok o)
      × IsPlaced dto vendor_id customer_id w o
          (create_order reference dto vendor_id customer_id w).1
unfolding create_order place_order refer_to
open_order-IsPlaced dto vendor_id customer_id w v u f e g known =
    let o : Order = new_order dto v vendor_id customer_id w.now w.db.orders.next_id in
    let w1 = with_order dto v vendor_id customer_id w in
    let (t, run, (added, rows, lines)) = items_added o.id dto.items w1 known in
    let logged =
      record_event_lem EventEntityType.order o.id order_created (order_payload o.id o.status)
        (put_items t w1) in
    (
      o,
      rw (f, e, g, run, logged) refl,
      record {
        vendor = v;
        found = f;
        trusted = e;
        waits = refl;
        by_vendor = refl;
        by_customer = refl;
        from_lat = refl;
        from_lng = refl;
        rows = rw (f, e, g, run, logged) refl;
        added = added;
        item_rows = rw (f, e, g, run, logged) rows;
        lines = lines;
        event = rw (f, e, g, run, logged) refl;
        sent = rw (f, e, g, run, logged) refl;
      },
    )

unknown_product :
    (dto : OrderDto) (vendor_id customer_id : ℕ) (w : World) (v : VendorProfile) (u : User)
    → find_row (λ v. v.id == vendor_id) w.db.vendors.rows ≡ some v
    → is_open v ≡ true
    → find_row (λ u. u.id == customer_id) w.db.users.rows ≡ some u
    → are_products reference w.db.products dto.items ≡ false
    → create_order reference dto vendor_id customer_id w ≡ (err foreign_key_violation, w)
unfolding create_order place_order refer_to
unknown_product dto vendor_id customer_id w v u f e g unknown =
    let (t, run) =
      items_refused w.db.orders.next_id dto.items (with_order dto v vendor_id customer_id w)
        unknown in
    rw (f, e, g, run) refl

listed_order-IsPlaced :
    (dto : OrderDto) (vendor_id customer_id : ℕ) (w : World)
    → ((o : Order) × (can_be_placed reference dto vendor_id customer_id w ≡ true)
        × ((create_order reference dto vendor_id customer_id w).0 ≡ ok o)
        × IsPlaced dto vendor_id customer_id w o
            (create_order reference dto vendor_id customer_id w).1)
      ⊎ ((x : Error) × (can_be_placed reference dto vendor_id customer_id w ≡ false)
          × (create_order reference dto vendor_id customer_id w ≡ (err x, w)))
unfolding create_order place_order refer_to
listed_order-IsPlaced dto vendor_id customer_id w =
    elim (Option-cases (find_row (λ v. v.id == vendor_id) w.db.vendors.rows)) [
      | inl f ↦ inr (not_found, rw f refl, rw f refl)
      | inr (v, f) ↦ elim (Bool-cases (is_open v)) [
        | inr e ↦ inr (forbidden, rw (f, e) refl, rw (f, e) refl)
        | inl e ↦ elim (Option-cases (find_row (λ u. u.id == customer_id) w.db.users.rows)) [
          | inl g ↦ inr (foreign_key_violation, rw (f, e, g) refl, rw (f, e, g) refl)
          | inr (u, g) ↦ elim (Bool-cases (are_products reference w.db.products dto.items)) [
            | inl known ↦
                let (o, done, is_placed) =
                  open_order-IsPlaced dto vendor_id customer_id w v u f e g known in
                inl (o, rw (f, e, g) known, done, is_placed)
            | inr unknown ↦ inr (
              foreign_key_violation,
              rw (f, e, g) unknown,
              unknown_product dto vendor_id customer_id w v u f e g unknown,
            )
          ]
        ]
      ]
    ]

module _ {prisma : Prisma} (d : Documented prisma) where
  -- Either the vendor is active and verified and the customer and all the products are there, and
  -- createOrder returns an order that waits for the vendor: its row is added to the orders, with the
  -- vendor's position, its items are those asked for, its event is logged and the vendor is told. Or
  -- one of these is missing, and the call throws and changes nothing.
  pub create_order-IsPlaced :
      (dto : OrderDto) (vendor_id customer_id : ℕ) (w : World)
      → ((o : Order) × (can_be_placed prisma dto vendor_id customer_id w ≡ true)
          × ((create_order prisma dto vendor_id customer_id w).0 ≡ ok o)
          × IsPlaced dto vendor_id customer_id w o
              (create_order prisma dto vendor_id customer_id w).1)
        ⊎ ((x : Error) × (can_be_placed prisma dto vendor_id customer_id w ≡ false)
            × (create_order prisma dto vendor_id customer_id w ≡ (err x, w)))
  create_order-IsPlaced = rw (Documented-reference d) listed_order-IsPlaced
