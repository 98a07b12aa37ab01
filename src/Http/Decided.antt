-- ===== src/Http/Decided.antt =====
-- Whether a request gets an order accepted by its vendor.
use mesyaf_market.Prelude.{
  ◌≡◌, ◌≤◌, refl, ℕ, Bool, true, some, List, [], ◌∷◌, arith, inl, inr, String,
}
use mesyaf_market.Database.Schema.{
  Order, OrderStatus, OrderType, Batch, Event, EventEntityType, Payload, is_order,
}
use mesyaf_market.Database.World.{Db, Table, World, Result, Exec, ok, err}
use mesyaf_market.Database.Rows.{count-append, count-update_rows_le}
use mesyaf_market.Database.Prisma.{
  Prisma, Documented, Documented-reference, reference, reference-Documented, orders, update,
  update_many, settle,
}
use mesyaf_market.Database.Keeps.{
  Keeps, keeps, Keeps-create, Keeps-update_many, Keeps-create_missing,
}
use mesyaf_market.Order.Create.{OrderDto, create_order}
use mesyaf_market.Order.Create.Placed.{create_order-IsPlaced}
use mesyaf_market.Events.{record_event, project_order, project_job}
use mesyaf_market.Order.Closing.{close_batch, schedule_batch_timeout, after_batching}
use mesyaf_market.Order.Batching.{Settings, CityRules}
use mesyaf_market.Order.Ready.{
  orders_in, join_batch, open_batch, try_batches, assign_to_batch, claim_ready, announce_ready,
  mark_owned, vendor_mark_ready,
}
use mesyaf_market.Delivery.Geo.{FloatOps}
use mesyaf_market.Http.Powers.{
  Lowers, Lowers-if, Lowers-pure, Lowers-bind, Lowers-then, Lowers-Keeps,
}

-- How many orders are accepted.
abbrev pub accepted : Prisma → Db → ℕ
accepted prisma db = prisma.count (λ o. is_order o.status OrderStatus.vendor_accepted) db.orders

-- A write to the orders that accepts none.
module _ (f : Order → Order)
    (clears : (o : Order)
      → is_order (f o).status OrderStatus.vendor_accepted ≡ true
      → is_order o.status OrderStatus.vendor_accepted ≡ true) where
  reference-update : (p : Order → Bool) → Lowers (accepted reference) (update reference orders p f)
  reference-update p = record {
    at = λ w. ground (
      arith,
      count-update_rows_le (λ o. is_order o.status OrderStatus.vendor_accepted) p f
          (λ o h. clears o) w.db.orders.rows,
    );
  }

  reference-update_many :
      (p : Order → Bool) → Lowers (accepted reference) (update_many reference orders p f)
  reference-update_many p = record {
    at = λ w.
        count-update_rows_le (λ o. is_order o.status OrderStatus.vendor_accepted) p f
          (λ o h. clears o) w.db.orders.rows;
  }

reference-create :
    (dto : OrderDto) (v c : ℕ) → Lowers (accepted reference) (create_order reference dto v c)
reference-create dto v c = record {
  at = λ w. elim (create_order-IsPlaced reference-Documented dto v c w) [
    | inl (o, known, done, placed) ↦ rw (placed.rows) (
        ground (
          arith,
          count-append (λ o. is_order o.status OrderStatus.vendor_accepted) w.db.orders.rows o,
          placed.waits,
        ))
    | inr (x, closed, run) ↦ rw run (omega arith)
  ];
}

settled :
    {A : Type 0} (n : Db → ℕ) (w : World) (r : Result A × World)
    → n r.1.db ≤ n w.db
    → n (settle w r).1.db ≤ n w.db
settled n w (ok a, w') h = h
settled n w (err e, w') h = omega arith

module _ {prisma : Prisma} (d : Documented prisma) where
  Lowers-transaction :
      {A : Type 0} (n : Db → ℕ) (m : Exec A) → Lowers n m → Lowers n (prisma.transaction m)
  Lowers-transaction n m l = record {
    at = λ w. rw (d.transaction_lem m w) (settled n w (m w) (l.at w));
  }

  pub Lowers-new_order :
      (dto : OrderDto) (v c : ℕ) → Lowers (accepted prisma) (create_order prisma dto v c)
  Lowers-new_order = rw (Documented-reference d) reference-create

  Lowers-batch :
      (p : Order → Bool) (b : ℕ)
      → Lowers
          (accepted prisma)
          (update prisma orders p (λ o. record o { delivery_batch_id = some b }))
  Lowers-batch =
      rw (Documented-reference d)
        λ p b. reference-update (λ o. record o { delivery_batch_id = some b }) (λ o h. h) p

  Lowers-mark :
      (p : Order → Bool) (t : OrderType) (now : ℕ)
      → Lowers (accepted prisma) (
          update_many prisma orders p (λ o. record o {
            status = OrderStatus.ready_for_delivery;
            order_type = t;
            ready_at = some now;
          }))
  Lowers-mark = rw (Documented-reference d) λ p t now.
      reference-update_many
        (λ o. record o {
          status = OrderStatus.ready_for_delivery;
          order_type = t;
          ready_at = some now;
        })
        (λ o h. cc) p

abbrev pub the_orders : Db → Table Order
the_orders db = db.orders

pub by_orders :
    (prisma : Prisma) {A : Type 0} (m : Exec A) → Keeps the_orders m → Lowers (accepted prisma) m
by_orders prisma m k =
    Lowers-Keeps the_orders (prisma.count (λ o. is_order o.status OrderStatus.vendor_accepted)) m
      (λ db. refl) k

ruleset rules = (
  keeps, Keeps-create, Keeps-create_missing, refl, by_orders, Lowers-pure, Lowers-bind, Lowers-then,
)

pub Keeps-closed : (prisma : Prisma) (id : ℕ) → Keeps the_orders (close_batch prisma id)
unfolding close_batch
Keeps-closed prisma id = search (keeps, Keeps-update_many, refl) depth 12

Keeps-project :
    (prisma : Prisma) (e : Event) (t : EventEntityType)
    → Keeps the_orders (elim t as (λ x. Exec (Unit {0})) [
      | EventEntityType.order ↦ project_order prisma e
      | EventEntityType.job ↦ project_job prisma e
    ])
unfolding project_order project_job
Keeps-project prisma e EventEntityType.order = search (keeps, Keeps-create_missing, refl) depth 12
Keeps-project prisma e EventEntityType.job = search (keeps, Keeps-create_missing, refl) depth 12

Keeps-project_event :
    (prisma : Prisma) (e : Event)
    → Keeps the_orders (elim e.entity_type as (λ x. Exec (Unit {0})) [
      | EventEntityType.order ↦ project_order prisma e
      | EventEntityType.job ↦ project_job prisma e
    ])
Keeps-project_event prisma e = Keeps-project prisma e e.entity_type

Keeps-recorded :
    (prisma : Prisma) (t : EventEntityType) (id : ℕ) (name : String) (payload : Payload)
    → Keeps the_orders (record_event prisma t id name payload)
unfolding record_event
Keeps-recorded prisma t id name payload =
    search (keeps, Keeps-create, refl, Keeps-project_event) depth 12

module _ {prisma : Prisma} (d : Documented prisma) (float : FloatOps) (s : Settings) where
  Lowers-try_batches :
      (rules : CityRules) (o : Order) (db : Db) (bs : List Batch)
      → Lowers (accepted prisma) (try_batches prisma float s rules o db bs)
  unfolding try_batches join_batch open_batch
  Lowers-try_batches r o db [] = search (rules, Lowers-batch d) depth 12
  Lowers-try_batches r o db (b ∷ bs) =
      Lowers-if _ (join_batch prisma float s r o b (orders_in prisma db b.id))
        (try_batches prisma float s r o db bs) (search (rules, Lowers-batch d) depth 12)
        (Lowers-try_batches r o db bs)

  Lowers-claim :
      (id : ℕ) (t : OrderType) → Lowers (accepted prisma) (claim_ready prisma float s id t)
  unfolding claim_ready assign_to_batch
  Lowers-claim id t = search (rules, Lowers-mark d, Lowers-try_batches, Keeps-recorded) depth 20

  pub Lowers-ready : (id u : ℕ) → Lowers (accepted prisma) (vendor_mark_ready prisma float s id u)
  unfolding vendor_mark_ready mark_owned announce_ready after_batching schedule_batch_timeout
  Lowers-ready id u = search (rules, Lowers-claim, Lowers-transaction d, Keeps-closed) depth 24
